-- ===== src/Interface/Payload/Body.antt =====
-- The request body of an invocation (src/lws_interface.c, lines 571 to 592), decoded in the place of its
-- text.
use lambda_lws.Prelude.{
  ℕ, ◌≡◌, refl, ap, ◌∙◌, not, Bool, true, false, Bool-cases, inl, inr, Option, none, some, List, [],
  ◌∷◌, ◌++◌, length, take, take-append, store, store_at, IsBytes, ℤ, rc_ok, rc_error, Run, ◌>>=◌,
  arith,
}
use lambda_lws.Codec.Base64.{Decoded}
use lambda_lws.Codec.Base64.Spec
use lambda_lws.Codec.Base64.Decode.{Outcome, base64_decode_lem}
use lambda_lws.Interface.Payload.{Yyjson, Payload, finish_body, decode_body, read_body}

-- The bytes of a body: its text, or what RFC 4648 decodes the text to.
unfoldable pub body_of : Bool → List ℕ → Option (List ℕ)
body_of true text = Spec.decode text
body_of false text = some text

-- The code and the payload, by the body.
unfoldable pub with_body : Payload → Option (List ℕ) → ℤ × Payload
with_body p none = (rc_error, p)
with_body p (some ys) = (rc_ok, record p { req_body = ys })

end_zero :
    (ys q : List ℕ)
    → (m : List ℕ) × (store (ys ++ (q ++ 0 ∷ [])) (length ys) 0 ≡ some (ys ++ 0 ∷ m))
unfolding store
end_zero ys [] = ([], store_at ys (0 ∷ []) 0 (length ys) 0 (omega arith) refl)
end_zero ys (x ∷ xs) =
    (xs ++ 0 ∷ [], store_at ys (x ∷ (xs ++ 0 ∷ [])) 0 (length ys) 0 (omega arith) refl)

finish_lem :
    (p : Payload) (n : ℕ) (d : Decoded) (o : Option (List ℕ))
    → Outcome n n [] (0 ∷ []) o d
    → finish_body p d.rc d.in_out d.in_out_len ≡ some (with_body p o)
unfolding finish_body with_body
finish_lem p n d none (bad, l, q) = ap (λ (r : ℤ). finish_body p r d.in_out d.in_out_len) bad
finish_lem p n d (some ys) (good, l, (q, e, m)) =
    let (rest, stores) = end_zero ys q in
    let len : d.in_out_len ≡ length ys = l ∙ omega arith in
    ap (λ (r : ℤ). finish_body p r d.in_out d.in_out_len) good
    ∙ ap (finish_body p rc_ok d.in_out) len
    ∙ ap (λ (b : List ℕ). finish_body p rc_ok b (length ys)) e
    ∙ ap (λ (r : Run (List ℕ)). r >>= λ b. some (with_body p (some (take (length ys) b)))) stores
    ∙ ap (λ (b : List ℕ). some (with_body p (some b))) (take-append (length ys) ys (0 ∷ rest) refl)

-- Where the body is a string of bytes and isBase64Encoded is a Boolean, the request's body is the string,
-- or the bytes that RFC 4648 decodes it to where isBase64Encoded is true; where it does not decode, the
-- result is -1. Nothing is read or written outside of the string and its zero byte.
pub read_body_lem :
    (j : Yyjson) (v e : j.Val) (p : Payload)
    → j.is_str v ≡ true
    → IsBytes (j.get_str v)
    → j.is_bool e ≡ true
    → read_body j (some v) (some e) p ≡ some (with_body p (body_of (j.is_true e) (j.get_str v)))
unfolding read_body decode_body body_of with_body
read_body_lem j v e p str bytes bool =
    let is_str : not (j.is_str v) ≡ false = ap not str in
    let is_bool : not (j.is_bool e) ≡ false = ap not bool in
    elim (Bool-cases (j.is_true e)) [
      | inl t ↦
          let (d, runs, o) = base64_decode_lem (j.get_str v) (0 ∷ []) bytes in
          rw (is_str, is_bool, t, runs, ◌>>=◌)
            (finish_lem p (length (j.get_str v)) d (Spec.decode (j.get_str v)) o)
      | inr f ↦ rw (is_str, is_bool, f) refl
    ]
