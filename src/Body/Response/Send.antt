-- ===== src/Body/Response/Send.antt =====
-- The body of a response that is not streamed: the part of `lws_post_response` (src/lws_interface.c,
-- lines 739 to 755) that turns it into base64 in its own block when it is not valid UTF-8.
use lambda_lws.Prelude.{
  ℕ, ◌≤◌, ◌<◌, ◌≡◌, refl, sym, ap, ◌∙◌, ◌⊎◌, inl, inr, Bool, true, false, Bool-cases, Option, none,
  some, List, ◌++◌, ltb, leb, if◌then◌else◌, length, length-append, length-take, take, drop,
  take-append-drop, take-append, length-drop, IsBytes, rc_ok, eqb_ℤ, Run, ◌>>=◌, Returns, arith,
}
use lambda_lws.Codec.Base64.{size_max, base64_encode, base64_encode_len}
use lambda_lws.Codec.Base64.Spec
use lambda_lws.Codec.Base64.Encode.{base64_encode_lem, base64_encode_len-encode}
use lambda_lws.Codec.Utf8.{valid_utf8}
use lambda_lws.Codec.Utf8.Valid.{IsText, valid_utf8_lem, valid_utf8-rc}
use lambda_lws.Body.{Realloc, Reallocates}
use lambda_lws.Body.Reserve.{IsBlock}
use lambda_lws.Body.Response.{Response}
use lambda_lws.Body.Response.Write.{IsValid, content}

-- How the part ends: by `goto cleanup`, or with the variable `base64` and the response.
pub data Sent : Type 0 where
  given_up : Response → Sent
  ready : Bool → Response → Sent

-- lws_base64_encode, in the response's block.
unfoldable pub encode_block : Response → Run Sent
encode_block s = do
  (mem, len) ← base64_encode s.mem s.len
  some (ready true (record s { mem = mem; len = len }))

-- With the answer of `lws_realloc` to a size.
unfoldable pub encode_resized : Response → ℕ → Option (List ℕ) → Run Sent
unfolding encode_block
encode_resized s n none = some (given_up s)
encode_resized s n (some m) = encode_block (record s { mem = m; resp_body_cap = n })

-- With the answer of `lws_base64_encode_len`.
unfoldable pub encode_sized : Realloc → Response → Option ℕ → Run Sent
unfolding encode_block encode_resized
encode_sized realloc s none = some (given_up s)
encode_sized realloc s (some n) =
    if ltb s.resp_body_cap n then encode_resized s n (realloc s.mem n) else encode_block s

unfoldable pub prepare_body : Realloc → Response → Run Sent
unfolding encode_sized
prepare_body realloc s =
    if eqb_ℤ (valid_utf8 (take s.len s.mem)) rc_ok
    then some (ready false s)
    else encode_sized realloc s (base64_encode_len s.len)

-- What is sent: the body itself if it is text, else its base64 form.
pub IsSent : Realloc → Response → Sent → Type 0
IsSent realloc s (ready false t) = (t ≡ s) × IsText (content s)
IsSent realloc s (ready true t) =
    (content t ≡ Spec.encode (content s)) × IsValid t × (¬ IsText (content s))
IsSent realloc s (given_up t) =
    (t ≡ s)
    × (¬ IsText (content s))
    × ((size_max < length (Spec.encode (content s)))
        ⊎ (realloc s.mem (length (Spec.encode (content s))) ≡ none))

-- The encoding in a block with room.
encode_block_lem :
    (realloc : Realloc) (s t : Response)
    → IsBytes (content s)
    → ¬ IsText (content s)
    → content t ≡ content s
    → t.len ≡ s.len
    → IsBlock t.mem t.resp_body_cap
    → length (content s) ≡ s.len
    → length (Spec.encode (content s)) ≤ t.resp_body_cap
    → Returns (encode_block t) (IsSent realloc s)
unfolding encode_block IsSent content
encode_block_lem realloc s t v not_text same same_len b l fits =
    let xs = take s.len s.mem in
    let room = drop t.len t.mem in
    let buffer : xs ++ room ≡ t.mem =
      ap (λ q. q ++ room) (sym same) ∙ take-append-drop t.len t.mem in
    let e =
      base64_encode_lem xs room v (omega (arith, ap length buffer, b.holds, fits))
        (omega (arith, ap length buffer, b.holds, b.in_range)) in
    let e' : base64_encode t.mem t.len
        ≡ some (
          Spec.encode xs ++ drop (length (Spec.encode xs)) (xs ++ room),
          length (Spec.encode xs),
        ) =
      cc (e, buffer, same_len, l) in
    let n = length (Spec.encode xs) in
    let m = Spec.encode xs ++ drop n (xs ++ room) in
    (
      ready true (record t { mem = m; len = n }),
      rw e' refl,
      (
        take-append n (Spec.encode xs) (drop n (xs ++ room)) refl,
        record {
          block = record {
            holds = omega (
              arith,
              length-append (Spec.encode xs) (drop n (xs ++ room)),
              length-drop n (xs ++ room),
              ap length buffer,
              b.holds,
              fits,
            );
            in_range = b.in_range;
          };
          within = fits;
        },
        not_text,
      ),
    )

-- With the answer of `realloc` to the size of the text.
encode_resized_lem :
    (realloc : Realloc) (s : Response) (n : ℕ)
    → Reallocates realloc
    → IsValid s
    → IsBytes (content s)
    → ¬ IsText (content s)
    → length (content s) ≡ s.len
    → length (Spec.encode (content s)) ≡ n
    → s.resp_body_cap < n
    → n ≤ size_max
    → (answer : Option (List ℕ)) → realloc s.mem n ≡ answer
    → Returns (encode_resized s n answer) (IsSent realloc s)
unfolding encode_resized IsSent Reallocates content
encode_resized_lem realloc s n ok v bytes not_text l ln less short none e =
    (given_up s, refl, (refl, not_text, inr (ap (λ q. realloc s.mem q) ln ∙ e)))
encode_resized_lem realloc s n ok v bytes not_text l ln less short (some m) e =
    let r = ok s.mem m n e in
    encode_block_lem realloc s (record s { mem = m; resp_body_cap = n }) bytes not_text
      (r.1 s.len (omega (arith, v.within, v.block.holds)) (omega (arith, v.within, less))) refl
      (record { holds = r.0; in_range = short }) l (omega (arith, ln))

-- For a valid state whose body is bytes, and a `realloc` that does what it documents, the part makes no
-- access outside the block. A body that is UTF-8 is left as it is, with `base64` false; any other is
-- replaced by its RFC 4648 text, with `base64` true, in a valid state, or given up unchanged, and that
-- only if the text would be too long for a `size_t` or `realloc` has refused a block of its size.
pub prepare_body_lem :
    (realloc : Realloc) (s : Response)
    → Reallocates realloc
    → IsValid s
    → IsBytes (content s)
    → Returns (prepare_body realloc s) (IsSent realloc s)
unfolding prepare_body encode_sized IsSent content
prepare_body_lem realloc s ok v bytes =
    let xs : List ℕ = take s.len s.mem in
    let text = valid_utf8_lem xs bytes in
    let l : length xs ≡ s.len = length-take s.len s.mem ∙ omega (arith, v.within, v.block.holds) in
    let n : ℕ = length (Spec.encode xs) in
    let sized =
      ap base64_encode_len (sym l)
      ∙ base64_encode_len-encode xs (omega (arith, l, v.within, v.block.in_range)) in
    elim (valid_utf8-rc xs) [
      | inl e ↦ (ready false s, rw e refl, (refl, text.0.0 e))
      | inr e ↦
          let not_text = text.1.0 e in
          elim (Bool-cases (leb n size_max)) [
            | inr long ↦
                (given_up s, rw (e, sized, long) refl, (refl, not_text, inl (ground (arith, long))))
            | inl short ↦ elim (Bool-cases (ltb s.resp_body_cap n)) [
              | inl less ↦
                  rw (e, sized, short, less)
                    (encode_resized_lem realloc s n ok v bytes not_text l refl
                      (ground (arith, less)) (ground (arith, short)) (realloc s.mem n) refl)
              | inr room ↦
                  rw (e, sized, short, room)
                    (encode_block_lem realloc s s bytes not_text refl refl v.block l
                      (ground (arith, room)))
            ]
          ]
    ]
