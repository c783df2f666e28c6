-- ===== src/Codec/Base64/Roundtrip.antt =====
-- What was encoded is decoded to the same bytes, by the RFC's functions and by the code in place.
use lambda_lws.Prelude.{
  ℕ, ◌+◌, ◌*◌, ◌/◌, ◌%◌, ◌≤◌, ◌<◌, ◌≡◌, refl, subst, ◌∙◌, Option, some, List, [], ◌∷◌, ◌++◌, length,
  drop, IsBytes, ◌==◌, ◌>>=◌, Returns, rc_ok, false, arith,
}
use lambda_lws.Codec.Base64.Spec
use lambda_lws.Codec.Base64.Spec.{symbol, sextet, octets}
use lambda_lws.Codec.Base64.Encode.{base64_encode_lem}
use lambda_lws.Codec.Base64.Decode.{base64_decode_lem, Outcome}
use lambda_lws.Codec.Base64.{Decoded, base64_encode, base64_decode, size_mod}

sextet-symbol : (v : ℕ) → v < 64 → sextet (symbol v) ≡ some v
unfolding sextet symbol
sextet-symbol v h = ground arith

symbol_facts : (v : ℕ) → v < 64 → (symbol v < 256) × ((symbol v == b'=') ≡ false)
unfolding symbol
symbol_facts v h = ground arith

-- The four numbers of six bits of three bytes, and back.
decode_inner-encode :
    (a b c : ℕ)
    → a < 256
    → b < 256
    → c < 256
    → Spec.decode_inner
        (symbol (a / 4))
        (symbol (a % 4 * 16 + b / 16))
        (symbol (b % 16 * 4 + c / 64))
        (symbol (c % 64))
      ≡ some (a ∷ b ∷ c ∷ [])
unfolding Spec.decode_inner octets
decode_inner-encode a b c ha hb hc = ground (
  arith,
  sextet-symbol (a / 4),
  sextet-symbol (a % 4 * 16 + b / 16),
  sextet-symbol (b % 16 * 4 + c / 64),
  sextet-symbol (c % 64),
)

decode_last-encode_3 :
    (a b c : ℕ)
    → a < 256
    → b < 256
    → c < 256
    → Spec.decode_last
        (symbol (a / 4))
        (symbol (a % 4 * 16 + b / 16))
        (symbol (b % 16 * 4 + c / 64))
        (symbol (c % 64))
      ≡ some (a ∷ b ∷ c ∷ [])
unfolding Spec.decode_last octets
decode_last-encode_3 a b c ha hb hc = ground (
  arith,
  sextet-symbol (a / 4),
  sextet-symbol (a % 4 * 16 + b / 16),
  sextet-symbol (b % 16 * 4 + c / 64),
  sextet-symbol (c % 64),
  symbol_facts (b % 16 * 4 + c / 64),
  symbol_facts (c % 64),
)

decode_last-encode_2 :
    (a b : ℕ)
    → a < 256
    → b < 256
    → Spec.decode_last (symbol (a / 4)) (symbol (a % 4 * 16 + b / 16)) (symbol (b % 16 * 4)) b'='
      ≡ some (a ∷ b ∷ [])
unfolding Spec.decode_last
decode_last-encode_2 a b ha hb = ground (
  arith,
  sextet-symbol (a / 4),
  sextet-symbol (a % 4 * 16 + b / 16),
  sextet-symbol (b % 16 * 4),
  symbol_facts (b % 16 * 4),
)

decode_last-encode_1 :
    (a : ℕ)
    → a < 256
    → Spec.decode_last (symbol (a / 4)) (symbol (a % 4 * 16)) b'=' b'=' ≡ some (a ∷ [])
unfolding Spec.decode_last
decode_last-encode_1 a ha = ground (arith, sextet-symbol (a / 4), sextet-symbol (a % 4 * 16))

-- Decoding undoes encoding.
pub decode-encode : (xs : List ℕ) → IsBytes xs → Spec.decode (Spec.encode xs) ≡ some xs
unfolding Spec.decode Spec.encode
decode-encode [] v = refl
decode-encode (a ∷ []) v = decode_last-encode_1 a v.0
decode-encode (a ∷ b ∷ []) v = decode_last-encode_2 a b v.0 v.1.0
decode-encode (a ∷ b ∷ c ∷ []) v = decode_last-encode_3 a b c v.0 v.1.0 v.1.1.0
decode-encode (a ∷ b ∷ c ∷ (d ∷ [])) v =
    rw (decode_inner-encode a b c v.0 v.1.0 v.1.1.0) (rw (decode_last-encode_1 d v.1.1.1.0))
decode-encode (a ∷ b ∷ c ∷ (d ∷ e ∷ [])) v =
    rw (decode_inner-encode a b c v.0 v.1.0 v.1.1.0)
      (rw (decode_last-encode_2 d e v.1.1.1.0 v.1.1.1.1.0))
decode-encode (a ∷ b ∷ c ∷ (d ∷ e ∷ f ∷ xs)) v =
    rw (decode_inner-encode a b c v.0 v.1.0 v.1.1.0) (rw (decode-encode (d ∷ e ∷ f ∷ xs) v.1.1.1))

encode-IsBytes : (xs : List ℕ) → IsBytes xs → IsBytes (Spec.encode xs)
unfolding Spec.encode
encode-IsBytes [] v = v
encode-IsBytes (a ∷ []) v = ground (arith, symbol_facts (a / 4), symbol_facts (a % 4 * 16))
encode-IsBytes (a ∷ b ∷ []) v =
    ground
      (arith, symbol_facts (a / 4), symbol_facts (a % 4 * 16 + b / 16), symbol_facts (b % 16 * 4))
encode-IsBytes (a ∷ b ∷ c ∷ xs) v = (
  (symbol_facts (a / 4) (omega arith)).0,
  (
    (symbol_facts (a % 4 * 16 + b / 16) (omega arith)).0,
    (
      (symbol_facts (b % 16 * 4 + c / 64) (omega arith)).0,
      ((symbol_facts (c % 64) (omega arith)).0, encode-IsBytes xs v.1.1.1),
    ),
  ),
)

-- `lws_base64_encode` and then `lws_base64_decode`, in the same buffer.
unfoldable pub there_and_back : List ℕ → ℕ → Option Decoded
there_and_back p len = base64_encode p len >>= λ t. base64_decode t.0 t.1

-- A buffer that is encoded and then decoded in place starts with the bytes `xs` that it held, with
-- their length and the code 0, if it has room for the text.
pub there_and_back_lem :
    (xs room : List ℕ)
    → IsBytes xs
    → length (Spec.encode xs) ≤ length (xs ++ room)
    → length (xs ++ room) < size_mod
    → Returns
        (there_and_back (xs ++ room) (length xs))
        (λ r. (r.rc ≡ rc_ok) × (r.in_out_len ≡ length xs) × ((q : List ℕ) × (r.in_out ≡ xs ++ q)))
unfolding there_and_back
there_and_back_lem xs room v fits small =
    let text = Spec.encode xs in
    let (r, e, h) =
      base64_decode_lem text (drop (length text) (xs ++ room)) (encode-IsBytes xs v) in
    let (ok, l, (q, b, _)) =
      subst (λ m. Outcome (length text) (length text) [] (drop (length text) (xs ++ room)) m r)
        (decode-encode xs v) h in
    rw (base64_encode_lem xs room v fits small) (r, e, (ok, l ∙ omega arith, (_, b)))
