-- ===== src/Tests/Codec.antt =====
-- test/test_codec.c, and the theorems on the codec at concrete buffers.
use lambda_lws.Prelude.{
  ℕ, ◌≡◌, refl, ◌↔◌, none, some, List, [], ◌∷◌, ◌++◌, drop, rc_ok, rc_error, codes, Returns, load,
  store, load_back, store_back, arith,
}
use lambda_lws.Codec.Base64.Spec
use lambda_lws.Codec.Base64.Encode.{base64_encode_lem}
use lambda_lws.Codec.Base64.Decode.{base64_decode_lem, Outcome}
use lambda_lws.Codec.Base64.Roundtrip.{there_and_back, there_and_back_lem}
use lambda_lws.Codec.Base64.{
  base64_encode, base64_decode, base64_encode_len, encode_remainder, encode_blocks, encoded_size,
  enc, b64_enc_tbl, dec, b64_dec_tbl, is_bad, byte_0, byte_1, byte_2, decode_leading, decode_final,
  decode_rest,
}
use lambda_lws.Codec.Utf8.{valid_utf8, utf8_loop, next, utf8d}
use lambda_lws.Codec.Utf8.Valid.{valid_utf8_lem, IsText}

program : List ℕ
unfolding base64_encode base64_decode base64_encode_len encode_remainder encode_blocks encoded_size
    enc b64_enc_tbl dec b64_dec_tbl is_bad byte_0 byte_1 byte_2 decode_leading decode_final
    decode_rest valid_utf8 utf8_loop next utf8d load store load_back store_back
program = []

-- "hello", five bytes in a buffer of eight
abbrev hello : List ℕ
hello = codes "hello"

abbrev room : List ℕ
room = 0 ∷ 0 ∷ 0 ∷ []

encode_hello : base64_encode (hello ++ room) 5 ≡ some (codes "aGVsbG8=", 8)
unfolding program
encode_hello = refl

-- A buffer without room is written past its end.
encode_no_room : base64_encode hello 5 ≡ none
unfolding program
encode_no_room = refl

decode_foobar :
    base64_decode (codes "Zm9vYmFy") 8
    ≡ some (record { rc = rc_ok; in_out = codes "foobarFy"; in_out_len = 6 })
unfolding program
decode_foobar = refl

decode_abcde :
    base64_decode (codes "abcde") 5
    ≡ some (record { rc = rc_error; in_out = codes "abcde"; in_out_len = 5 })
unfolding program
decode_abcde = refl

decode_marks :
    base64_decode (codes "!!!!") 4
    ≡ some (record { rc = rc_error; in_out = codes "!!!!"; in_out_len = 4 })
unfolding program
decode_marks = refl

encode_len_5 : base64_encode_len 5 ≡ some 8
unfolding program
encode_len_5 = refl

utf8_euro : valid_utf8 (0xE2 ∷ 0x82 ∷ 0xAC ∷ []) ≡ rc_ok
unfolding program
utf8_euro = refl

utf8_face : valid_utf8 (0xF0 ∷ 0x9F ∷ 0x98 ∷ 0x80 ∷ []) ≡ rc_ok
unfolding program
utf8_face = refl

utf8_truncated : valid_utf8 (0xC2 ∷ []) ≡ rc_error
unfolding program
utf8_truncated = refl

base64_encode_lem_example :
    base64_encode (hello ++ room) 5 ≡ some (Spec.encode hello ++ drop 8 (hello ++ room), 8)
unfolding Spec.encode
base64_encode_lem_example = base64_encode_lem hello room (omega arith) (omega arith) (omega arith)

base64_decode_lem_example :
    Returns
      (base64_decode (codes "aGVsbG8=") 8)
      (Outcome 8 8 [] [] (Spec.decode (codes "aGVsbG8=")))
base64_decode_lem_example = base64_decode_lem (codes "aGVsbG8=") [] (omega arith)

there_and_back_lem_example :
    Returns
      (there_and_back (hello ++ room) 5)
      (λ r. (r.rc ≡ rc_ok) × (r.in_out_len ≡ 5) × ((q : List ℕ) × (r.in_out ≡ hello ++ q)))
unfolding Spec.encode
there_and_back_lem_example = there_and_back_lem hello room (omega arith) (omega arith) (omega arith)

valid_utf8_lem_example :
    ((valid_utf8 (0xE2 ∷ 0x82 ∷ 0xAC ∷ []) ≡ rc_ok) ↔ IsText (0xE2 ∷ 0x82 ∷ 0xAC ∷ []))
    × ((valid_utf8 (0xE2 ∷ 0x82 ∷ 0xAC ∷ []) ≡ rc_error) ↔ (¬ IsText (0xE2 ∷ 0x82 ∷ 0xAC ∷ [])))
valid_utf8_lem_example = valid_utf8_lem (0xE2 ∷ 0x82 ∷ 0xAC ∷ []) (omega arith)
