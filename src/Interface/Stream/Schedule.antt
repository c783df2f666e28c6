-- ===== src/Interface/Stream/Schedule.antt =====
-- A streaming response as a whole: the calls of `lws_handle_read` (src/lws_interface.c, lines 274 to
-- 334) with what the main thread does between them: bytes written to the response body
-- (`lws_write_response_body`, src/lws_request.c, lines 118 and 119) and the end of the response
-- (`ctx->streaming_eof = 1`, src/lws_request.c, line 274).
use lambda_lws.Prelude.{
  ℕ, zero, suc, ◌-◌, ◌*◌, ◌≤◌, ◌<◌, ◌≡◌, refl, sym, ap, ap₂, ◌∙◌, Bool, true, false, List, [], ◌∷◌,
  ◌++◌, append_assoc, append-nil, length, take-append-drop, drop-append_split, drop_eq,
  length-append, take, drop, replicate, All, arith,
}
use lambda_lws.Codec.Base64.{size_max}
use lambda_lws.Interface.Stream.{
  Stream, separator_len, ReadResult, abort, pause, sent, send_prelude, send_separator, send_body,
  send_parts, handle_read,
}
use lambda_lws.Interface.Stream.Reads.{
  remaining, answer, handle_read_lem, send_prelude-keeps, send_separator-keeps,
}

-- A call of the read callback with `size` and `nmemb`, bytes written to the body, the end.
pub data Event : Type 0 where
  read : ℕ → ℕ → Event
  write : List ℕ → Event
  finish : Event

-- The bytes a result hands to libcurl.
unfoldable pub bytes_of : ReadResult → List ℕ
bytes_of abort = []
bytes_of pause = []
bytes_of (sent bs) = bs

-- What an event sends, and the state behind it.
unfoldable pub step : Event → Stream → List ℕ × Stream
step (read size nmemb) s = let (r, t) = handle_read size nmemb s in (bytes_of r, t)
step (write bs) s = ([], record s { resp_body = s.resp_body ++ bs })
step finish s = ([], record s { streaming_eof = true })

unfoldable pub run : List Event → Stream → List ℕ × Stream
run [] s = ([], s)
run (e ∷ es) s = let (out, t) = step e s in let (outs, u) = run es t in (out ++ outs, u)

-- The bytes that the events write.
unfoldable pub written : List Event → List ℕ
written [] = []
written (read size nmemb ∷ es) = written es
written (write bs ∷ es) = bs ++ written es
written (finish ∷ es) = written es

-- The room of every read is a `size_t`.
unfoldable pub Fits : Event → Type 0
Fits (read size nmemb) = size * nmemb ≤ size_max
Fits (write bs) = Unit
Fits finish = Unit

-- The position in the body is not behind its end.
pub IsValid : Stream → Type 0
IsValid s = s.resp_body_pos ≤ length s.resp_body

send_body-IsValid : (r : ℕ) (s : Stream) → IsValid s → IsValid (send_body r s).1
unfolding send_body IsValid
send_body-IsValid r s h = ground arith

send_parts-IsValid : (len : ℕ) (s : Stream) → IsValid s → IsValid (send_parts len s).1
unfolding send_parts IsValid
send_parts-IsValid len s h =
    let s₁ = (send_prelude len s).1 in
    let kp = send_prelude-keeps len s in
    let m₁ = len - length (send_prelude len s).0 in
    let s₂ = (send_separator m₁ s₁).1 in
    let kq = send_separator-keeps m₁ s₁ in
    let m₂ = m₁ - length (send_separator m₁ s₁).0 in
    send_body-IsValid m₂ s₂ (omega (arith, h, ap length kp.1, kp.2, ap length kq.2, kq.3))

step-IsValid : (e : Event) (s : Stream) → Fits e → IsValid s → IsValid (step e s).1
unfolding step handle_read IsValid Fits
step-IsValid (read size nmemb) s f h =
    let v = send_parts-IsValid (size * nmemb) s h in ground (arith, v)
step-IsValid (write bs) s f h = omega (arith, h, length-append s.resp_body bs)
step-IsValid finish s f h = h

bytes_of-answer : (eof : Bool) (bs : List ℕ) → bytes_of (answer eof bs) ≡ bs
unfolding bytes_of answer
bytes_of-answer true [] = refl
bytes_of-answer false [] = refl
bytes_of-answer true (b ∷ bs) = refl
bytes_of-answer false (b ∷ bs) = refl

-- A step sends from the front of what remains, behind which it puts what it writes.
step_lem :
    (e : Event) (s : Stream)
    → Fits e
    → IsValid s
    → (step e s).0 ++ remaining (step e s).1 ≡ remaining s ++ written (e ∷ [])
unfolding step Fits written remaining IsValid
step_lem (read size nmemb) s f h =
    let p = handle_read_lem size nmemb s f in
    ap₂ (λ a b. a ++ b)
      (ap bytes_of p.0 ∙ bytes_of-answer s.streaming_eof (take (size * nmemb) (remaining s))) p.1
    ∙ (take-append-drop (size * nmemb) (remaining s) ∙ sym (append-nil (remaining s)))
step_lem (write bs) s f h =
    let a : List ℕ = drop s.streaming_prelude_pos s.streaming_prelude in
    let z : List ℕ = replicate (separator_len - s.streaming_separator) 0 in
    let b : List ℕ = drop s.resp_body_pos s.resp_body in
    let e : drop s.resp_body_pos (s.resp_body ++ bs) ≡ b ++ bs =
      drop-append_split s.resp_body_pos s.resp_body bs
      ∙ ap (λ t. b ++ t)
          (drop_eq bs {m = s.resp_body_pos - length s.resp_body} {n = 0} (omega (arith, h))) in
    ap (λ t. a ++ (z ++ t)) e ∙ cc (append_assoc a (z ++ b) bs, append_assoc z b bs, append-nil bs)
step_lem finish s f h = sym (append-nil (remaining s))

written-cons : (e : Event) (es : List Event) → written (e ∷ []) ++ written es ≡ written (e ∷ es)
unfolding written
written-cons (read size nmemb) es = refl
written-cons (write bs) es = ap (λ q. q ++ written es) (append-nil bs)
written-cons finish es = refl

run_lem :
    (es : List Event) (s : Stream)
    → All Fits es
    → IsValid s
    → (run es s).0 ++ remaining (run es s).1 ≡ remaining s ++ written es
unfolding run written
run_lem [] s f h = sym (append-nil (remaining s))
run_lem (e ∷ es) s (f, fs) h =
    let out = (step e s).0 in
    let t = (step e s).1 in
    append_assoc out (run es t).0 (remaining (run es t).1)
    ∙ (ap (λ q. out ++ q) (run_lem es t fs (step-IsValid e s f h))
        ∙ (sym (append_assoc out (remaining t) (written es))
            ∙ (ap (λ q. q ++ written es) (step_lem e s f h)
                ∙ (append_assoc (remaining s) (written (e ∷ [])) (written es)
                    ∙ ap (λ q. remaining s ++ q) (written-cons e es)))))

-- The state at the start of a streaming response.
abbrev pub start : List ℕ → Stream
start prelude = record {
  streaming_prelude = prelude;
  streaming_prelude_pos = 0;
  streaming_separator = 0;
  resp_body = [];
  resp_body_pos = 0;
  streaming_eof = false;
  streaming_paused = false;
}

-- All the bytes of a response: the prelude, eight zeros and the body.
abbrev pub response : List ℕ → List ℕ → List ℕ
response prelude body = prelude ++ (replicate separator_len 0 ++ body)

answer-end : (eof : Bool) (bs : List ℕ) → answer eof bs ≡ sent [] → (bs ≡ []) × (eof ≡ true)
unfolding answer
answer-end true [] h = (refl, refl)
answer-end false [] h = ground arith
answer-end true (b ∷ bs) h = ground arith
answer-end false (b ∷ bs) h = ground arith

take-nil : (n : ℕ) (xs : List ℕ) → 0 < n → take n xs ≡ [] → xs ≡ []
take-nil zero xs h e = ground arith
take-nil (suc n) [] h e = refl
take-nil (suc n) (x ∷ xs) h e = ground arith

-- From the start of a streaming response with the given prelude, for every sequence of reads (each
-- with room for a `size_t`), writes to the body and the end: what has been sent is the start of
-- prelude, eight zero bytes and all that was written, and what remains is the rest of these.
pub run-response :
    (prelude : List ℕ) (es : List Event)
    → All Fits es
    → (run es (start prelude)).0 ++ remaining (run es (start prelude)).1
      ≡ response prelude (written es)
unfolding remaining IsValid
run-response prelude es f =
    run_lem es (start prelude) f (omega arith)
    ∙ append_assoc prelude (replicate separator_len 0) (written es)

-- If, after such a sequence, a read with room for at least one byte (and at most a `size_t`) answers
-- the end of the data, then all of the prelude, the eight zero bytes and what was written has been
-- sent, and the response has ended.
pub run-handle_read :
    (prelude : List ℕ) (es : List Event) (size nmemb : ℕ)
    → All Fits es
    → size * nmemb ≤ size_max
    → 0 < size * nmemb
    → (handle_read size nmemb (run es (start prelude)).1).0 ≡ sent []
    → ((run es (start prelude)).0 ≡ response prelude (written es))
      × ((run es (start prelude)).1.streaming_eof ≡ true)
run-handle_read prelude es size nmemb f fits room h =
    let (out, t) = run es (start prelude) in
    let p = handle_read_lem size nmemb t fits in
    let a = answer-end t.streaming_eof (take (size * nmemb) (remaining t)) (sym p.0 ∙ h) in
    let e : remaining t ≡ [] = take-nil (size * nmemb) (remaining t) room a.0 in
    (sym (append-nil out) ∙ (ap (λ q. out ++ q) (sym e) ∙ run-response prelude es f), a.1)
