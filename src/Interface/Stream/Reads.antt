-- ===== src/Interface/Stream/Reads.antt =====
-- One call of `lws_handle_read`: it sends the next bytes of what remains, in order and none twice.
use lambda_lws.Prelude.{
  ℕ, zero, suc, ◌+◌, ◌-◌, ◌*◌, ◌/◌, ◌%◌, ◌≤◌, ◌<◌, min, ◌≡◌, refl, sym, ap, ap₂, ◌∙◌, inl, inr,
  Bool, true, false, Bool-cases, not, ◌&&◌, List, [], ◌∷◌, ◌++◌, ltb, ◌==◌, if◌then◌else◌, length,
  length-take, length-drop, take_eq, drop_eq, replicate_eq, take-append_split, drop-append_split,
  take-replicate, drop-replicate, take_past, drop_past, drop-drop, take, drop, replicate, arith,
}
use native.Mathlib.Nat.{div-lt_iff_lt-mul, mul-zero}
use lambda_lws.Codec.Base64.{size_max}
use lambda_lws.Interface.Stream.{
  Stream, separator_len, ReadResult, abort, pause, sent, clip, send_prelude, send_separator,
  send_body, send_parts, handle_read,
}

-- What is still to be sent of the stream that is there.
unfoldable pub remaining : Stream → List ℕ
remaining s =
    drop s.streaming_prelude_pos s.streaming_prelude
    ++ (replicate (separator_len - s.streaming_separator) 0 ++ drop s.resp_body_pos s.resp_body)

-- A part that is sent as far as `remain` bytes go: in both cases of `clip` the first `remain` bytes
-- behind the position, and the position moves behind them.
part_sent :
    (pos remain : ℕ) (xs : List ℕ)
    → pos < length xs
    → (take (clip (length xs - pos) remain) (drop pos xs) ≡ take remain (drop pos xs))
      × (drop (pos + clip (length xs - pos) remain) xs ≡ drop remain (drop pos xs))
part_sent pos remain xs h = elim (Bool-cases (ltb remain (length xs - pos))) [
  | inl e ↦ rw e (refl, sym (drop-drop pos remain xs))
  | inr e ↦
      let short : length (drop pos xs) ≤ remain = let l = length-drop pos xs in ground arith in
      rw e (
        take_past (length xs - pos) (drop pos xs) (omega (arith, length-drop pos xs))
            ∙ sym (take_past remain (drop pos xs) short),
        drop_past (pos + (length xs - pos)) xs (omega arith)
            ∙ sym (drop_past remain (drop pos xs) short),
      )
]

-- What a part leaves of a state.
record Sends (remain : ℕ) (part : Stream → List ℕ) (out : List ℕ × Stream) (s : Stream)
    : Type 0 where
  bytes : out.0 ≡ take remain (part s)
  left : part out.1 ≡ drop remain (part s)

abbrev prelude_left : Stream → List ℕ
prelude_left s = drop s.streaming_prelude_pos s.streaming_prelude

abbrev separator_left : Stream → List ℕ
separator_left s = replicate (separator_len - s.streaming_separator) 0

abbrev body_left : Stream → List ℕ
body_left s = drop s.resp_body_pos s.resp_body

nothing_sent :
    (pos remain : ℕ) (xs : List ℕ)
    → ltb pos (length xs) ≡ false
    → ([] ≡ take remain (drop pos xs)) × (drop pos xs ≡ drop remain (drop pos xs))
nothing_sent pos remain xs h =
    let e : drop pos xs ≡ [] = drop_past pos xs (ground arith) in
    rw e (sym (take_past remain [] (omega arith)), sym (drop_past remain [] (omega arith)))

send_prelude-Sends : (remain : ℕ) (s : Stream) → Sends remain prelude_left (send_prelude remain s) s
unfolding send_prelude
send_prelude-Sends remain s =
    elim (Bool-cases (ltb s.streaming_prelude_pos (length s.streaming_prelude))) [
      | inl e ↦
          let p = part_sent s.streaming_prelude_pos remain s.streaming_prelude (ground arith) in
          rw e (record { bytes = p.0; left = p.1 })
      | inr e ↦
          let p = nothing_sent s.streaming_prelude_pos remain s.streaming_prelude e in
          rw e (record { bytes = p.0; left = p.1 })
    ]

send_body-Sends : (remain : ℕ) (s : Stream) → Sends remain body_left (send_body remain s) s
unfolding send_body
send_body-Sends remain s = elim (Bool-cases (ltb s.resp_body_pos (length s.resp_body))) [
  | inl e ↦
      let p = part_sent s.resp_body_pos remain s.resp_body (ground arith) in
      rw e (record { bytes = p.0; left = p.1 })
  | inr e ↦
      let p = nothing_sent s.resp_body_pos remain s.resp_body e in
      rw e (record { bytes = p.0; left = p.1 })
]

send_separator-Sends :
    (remain : ℕ) (s : Stream) → Sends remain separator_left (send_separator remain s) s
unfolding send_separator
send_separator-Sends remain s = elim (Bool-cases (ltb sep separator_len)) [
  | inl e ↦ rw e (record {
    bytes =
        replicate_eq 0 {m = clip (8 - sep) remain} {n = min remain (8 - sep)} (ground arith)
        ∙ sym (take-replicate remain (8 - sep) 0);
    left =
        replicate_eq 0 {m = 8 - (sep + clip (8 - sep) remain) % 16} {n = 8 - sep - remain}
          (ground arith)
        ∙ sym (drop-replicate remain (8 - sep) 0);
  })
  | inr e ↦ rw e (record {
    bytes =
        replicate_eq 0 {m = 0} {n = min remain (8 - sep)} (ground arith)
        ∙ sym (take-replicate remain (8 - sep) 0);
    left =
        replicate_eq 0 {m = 8 - sep} {n = 8 - sep - remain} (ground arith)
        ∙ sym (drop-replicate remain (8 - sep) 0);
  })
]
  where
    sep : ℕ
    sep = s.streaming_separator

-- The fields that a part leaves alone.
pub send_prelude-keeps :
    (r : ℕ) (s : Stream)
    → let t = (send_prelude r s).1 in
      (t.streaming_separator ≡ s.streaming_separator)
      × (t.resp_body ≡ s.resp_body)
      × (t.resp_body_pos ≡ s.resp_body_pos)
      × (t.streaming_eof ≡ s.streaming_eof)
unfolding send_prelude
send_prelude-keeps r s = ground arith

pub send_separator-keeps :
    (r : ℕ) (s : Stream)
    → let t = (send_separator r s).1 in
      (t.streaming_prelude ≡ s.streaming_prelude)
      × (t.streaming_prelude_pos ≡ s.streaming_prelude_pos)
      × (t.resp_body ≡ s.resp_body)
      × (t.resp_body_pos ≡ s.resp_body_pos)
      × (t.streaming_eof ≡ s.streaming_eof)
unfolding send_separator
send_separator-keeps r s = ground arith

send_body-keeps :
    (r : ℕ) (s : Stream)
    → let t = (send_body r s).1 in
      (t.streaming_prelude ≡ s.streaming_prelude)
      × (t.streaming_prelude_pos ≡ s.streaming_prelude_pos)
      × (t.streaming_separator ≡ s.streaming_separator)
      × (t.streaming_eof ≡ s.streaming_eof)
unfolding send_body
send_body-keeps r s = ground arith

-- What is taken from a list in three parts, each as far as the parts before it leave room.
take_parts :
    (n : ℕ) (xs ys zs : List ℕ)
    → take n (xs ++ (ys ++ zs))
      ≡ take n xs
        ++ (take (n - length (take n xs)) ys
            ++ take (n - length (take n xs) - length (take (n - length (take n xs)) ys)) zs)
take_parts n xs ys zs =
    take-append_split n xs (ys ++ zs)
    ∙ ap (λ t. take n xs ++ t)
        (take_eq (ys ++ zs) {m = n - length xs} {n = n - length (take n xs)}
            (omega (arith, length-take n xs))
          ∙ (take-append_split (n - length (take n xs)) ys zs
              ∙ ap (λ t. take (n - length (take n xs)) ys ++ t)
                  (take_eq zs {m = n - length (take n xs) - length ys}
                    {n = n - length (take n xs) - length (take (n - length (take n xs)) ys)}
                    (omega (arith, length-take (n - length (take n xs)) ys)))))

drop_parts :
    (n : ℕ) (xs ys zs : List ℕ)
    → drop n (xs ++ (ys ++ zs))
      ≡ drop n xs
        ++ (drop (n - length (take n xs)) ys
            ++ drop (n - length (take n xs) - length (take (n - length (take n xs)) ys)) zs)
drop_parts n xs ys zs =
    drop-append_split n xs (ys ++ zs)
    ∙ ap (λ t. drop n xs ++ t)
        (drop_eq (ys ++ zs) {m = n - length xs} {n = n - length (take n xs)}
            (omega (arith, length-take n xs))
          ∙ (drop-append_split (n - length (take n xs)) ys zs
              ∙ ap (λ t. drop (n - length (take n xs)) ys ++ t)
                  (drop_eq zs {m = n - length (take n xs) - length ys}
                    {n = n - length (take n xs) - length (take (n - length (take n xs)) ys)}
                    (omega (arith, length-take (n - length (take n xs)) ys)))))

-- The three parts together: the next `len` bytes of what remains.
pub send_parts_lem :
    (len : ℕ) (s : Stream)
    → let (bytes, t) = send_parts len s in
      (bytes ≡ take len (remaining s))
      × (remaining t ≡ drop len (remaining s))
      × (t.streaming_eof ≡ s.streaming_eof)
unfolding send_parts remaining
send_parts_lem len s =
    let s₁ = (send_prelude len s).1 in
    let p = send_prelude-Sends len s in
    let kp = send_prelude-keeps len s in
    let m₁ = len - length (send_prelude len s).0 in
    let s₂ = (send_separator m₁ s₁).1 in
    let q = send_separator-Sends m₁ s₁ in
    let kq = send_separator-keeps m₁ s₁ in
    let m₂ = m₁ - length (send_separator m₁ s₁).0 in
    let r = send_body-Sends m₂ s₂ in
    let kr = send_body-keeps m₂ s₂ in
    (
      cc (
        p.bytes,
        q.bytes,
        r.bytes,
        kp.0,
        kp.1,
        kp.2,
        kq.2,
        kq.3,
        take_parts len (prelude_left s) (separator_left s) (body_left s),
      ),
      cc (
        p.bytes,
        p.left,
        q.bytes,
        q.left,
        r.left,
        kp.0,
        kp.1,
        kp.2,
        kq.0,
        kq.1,
        kq.2,
        kq.3,
        kr.0,
        kr.1,
        kr.2,
        drop_parts len (prelude_left s) (separator_left s) (body_left s),
      ),
      kr.3 ∙ (kq.4 ∙ kp.3),
    )

-- `size` and `nmemb` pass the test against overflow exactly when their product is a `size_t`.
pub overflow_test :
    (size nmemb : ℕ)
    → (not (nmemb == 0) && ltb (size_max / nmemb) size) ≡ ltb size_max (size * nmemb)
overflow_test size zero = ground (arith, mul-zero size)
overflow_test size (suc n) =
    ground (arith, div-lt_iff_lt-mul {k = suc n} {x = size_max} {y = size} (omega arith))

-- What a call answers: the next bytes, as many as fit; if there are none, the end after the end of
-- the response, else a pause.
unfoldable pub answer : Bool → List ℕ → ReadResult
answer eof (b ∷ bs) = sent (b ∷ bs)
answer true [] = sent []
answer false [] = pause

-- The end of a call, on the bytes that the three parts have sent.
answer_lem :
    (bytes : List ℕ) (t : Stream)
    → let out : ReadResult × Stream =
        if length bytes == 0
        then (if t.streaming_eof
            then (sent [], t)
            else (pause, record t { streaming_paused = true }))
        else (sent bytes, t) in
      (out.0 ≡ answer t.streaming_eof bytes)
      × (remaining out.1 ≡ remaining t)
      × (out.1.streaming_eof ≡ t.streaming_eof)
unfolding answer remaining
answer_lem [] t = ground arith
answer_lem (b ∷ bs) t = ground arith

-- A call of `lws_handle_read` with room for `len` bytes, where `size * nmemb` is `len` and a `size_t`,
-- sends the next `len` bytes of what remains of prelude, separator and body, or all of it if that is
-- less, and leaves exactly the rest. It pauses when nothing is sent before the end of the response.
pub handle_read_lem :
    (size nmemb : ℕ) (s : Stream)
    → size * nmemb ≤ size_max
    → let (r, t) = handle_read size nmemb s in
      (r ≡ answer s.streaming_eof (take (size * nmemb) (remaining s)))
      × (remaining t ≡ drop (size * nmemb) (remaining s))
      × (t.streaming_eof ≡ s.streaming_eof)
unfolding handle_read
handle_read_lem size nmemb s h =
    let p = send_parts_lem (size * nmemb) s in
    let a = answer_lem (send_parts (size * nmemb) s).0 (send_parts (size * nmemb) s).1 in
    let fits : ltb size_max (size * nmemb) ≡ false = ground arith in
    rw (overflow_test size nmemb, fits) (a.0 ∙ ap₂ answer p.2 p.0, a.1 ∙ p.1, a.2 ∙ p.2)

-- With a product that is no `size_t` the call aborts and changes nothing.
pub handle_read_overflow :
    (size nmemb : ℕ) (s : Stream) → size_max < size * nmemb → handle_read size nmemb s ≡ (abort, s)
unfolding handle_read
handle_read_overflow size nmemb s h =
    let over : ltb size_max (size * nmemb) ≡ true = ground arith in
    rw (overflow_test size nmemb, over)
