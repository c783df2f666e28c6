-- ===== src/Codec/Base64.antt =====
-- src/lws_codec.c, lines 24 to 36 and 81 to 206: `lws_base64_decode`, `lws_base64_encode` and
-- `lws_base64_encode_len`. The buffer `in_out` is a list of bytes as long as the memory behind the
-- pointer; a run is `none` if it reads or writes outside. `<<` is a product and `>>` a quotient; a
-- `size_t` sum that could wrap is taken modulo `size_mod`.
pub mod Spec
pub mod Blocks
pub mod Encode
pub mod Decode
pub mod Roundtrip
use lambda_lws.Prelude.{
  ℕ, zero, suc, ◌+◌, ◌-◌, ◌*◌, ◌/◌, ◌%◌, ◌^◌, bit_and, bit_or, Bool, ◌||◌, not, Option, none, some,
  List, [], ◌∷◌, ◌++◌, ltb, ◌==◌, if◌then◌else◌, get_or, replicate, codes, ℤ, rc_ok, rc_error, Run,
  ◌>>=◌, load, store, load_back, store_back,
}

abbrev pub size_mod : ℕ
size_mod = 2 ^ 64

-- SIZE_MAX
abbrev pub size_max : ℕ
size_max = 2 ^ 64 - 1

unfoldable pub b64_dec_tbl : List ℕ
b64_dec_tbl =
    0x80
    ∷ 0x80
    ∷ 0x80
    ∷ 0x80
    ∷ 0x80
    ∷ 0x80
    ∷ 0x80
    ∷ 0x80
    ∷ 0x80
    ∷ 0x80
    ∷ 0x80
    ∷ 0x80
    ∷ 0x80
    ∷ 0x80
    ∷ 0x80
    ∷ 0x80
    ∷ 0x80
    ∷ 0x80
    ∷ 0x80
    ∷ 0x80
    ∷ 0x80
    ∷ 0x80
    ∷ 0x80
    ∷ 0x80
    ∷ 0x80
    ∷ 0x80
    ∷ 0x80
    ∷ 0x80
    ∷ 0x80
    ∷ 0x80
    ∷ 0x80
    ∷ 0x80
    ∷ 0x80
    ∷ 0x80
    ∷ 0x80
    ∷ 0x80
    ∷ 0x80
    ∷ 0x80
    ∷ 0x80
    ∷ 0x80
    ∷ 0x80
    ∷ 0x80
    ∷ 0x80
    ∷ 62
    ∷ 0x80
    ∷ 0x80
    ∷ 0x80
    ∷ 63
    ∷ 52
    ∷ 53
    ∷ 54
    ∷ 55
    ∷ 56
    ∷ 57
    ∷ 58
    ∷ 59
    ∷ 60
    ∷ 61
    ∷ 0x80
    ∷ 0x80
    ∷ 0x80
    ∷ 0x80
    ∷ 0x80
    ∷ 0x80
    ∷ 0x80
    ∷ 0
    ∷ 1
    ∷ 2
    ∷ 3
    ∷ 4
    ∷ 5
    ∷ 6
    ∷ 7
    ∷ 8
    ∷ 9
    ∷ 10
    ∷ 11
    ∷ 12
    ∷ 13
    ∷ 14
    ∷ 15
    ∷ 16
    ∷ 17
    ∷ 18
    ∷ 19
    ∷ 20
    ∷ 21
    ∷ 22
    ∷ 23
    ∷ 24
    ∷ 25
    ∷ 0x80
    ∷ 0x80
    ∷ 0x80
    ∷ 0x80
    ∷ 0x80
    ∷ 0x80
    ∷ 26
    ∷ 27
    ∷ 28
    ∷ 29
    ∷ 30
    ∷ 31
    ∷ 32
    ∷ 33
    ∷ 34
    ∷ 35
    ∷ 36
    ∷ 37
    ∷ 38
    ∷ 39
    ∷ 40
    ∷ 41
    ∷ 42
    ∷ 43
    ∷ 44
    ∷ 45
    ∷ 46
    ∷ 47
    ∷ 48
    ∷ 49
    ∷ 50
    ∷ 51
    ∷ 0x80
    ∷ 0x80
    ∷ 0x80
    ∷ 0x80
    ∷ 0x80
    ∷ replicate 128 0x80

unfoldable pub b64_enc_tbl : List ℕ
b64_enc_tbl = codes "ABCDEFGHIJKLMNOPQRSTUVWXYZabcdefghijklmnopqrstuvwxyz0123456789+/"

-- A table's entry at a byte, and at a number of six bits.
unfoldable pub dec : ℕ → ℕ
dec c = get_or b64_dec_tbl c 0x80

unfoldable pub enc : ℕ → ℕ
enc v = get_or b64_enc_tbl v 0

-- (uint8_t)((va << 2) | (vb >> 4)), (uint8_t)((vb << 4) | (vc >> 2)), (uint8_t)((vc << 6) | vd)
unfoldable pub byte_0 : ℕ → ℕ → ℕ
byte_0 va vb = bit_or (va * 2 ^ 2) (vb / 2 ^ 4) % 256

unfoldable pub byte_1 : ℕ → ℕ → ℕ
byte_1 vb vc = bit_or (vb * 2 ^ 4) (vc / 2 ^ 2) % 256

unfoldable pub byte_2 : ℕ → ℕ → ℕ
byte_2 vc vd = bit_or (vc * 2 ^ 6) vd % 256

-- v & 0x80, as a truth value
unfoldable pub is_bad : ℕ → Bool
is_bad v = not (bit_and v 0x80 == 0)

-- How the loop over the leading blocks ends: by `return -1`, or with the indices `in` and `out`.
pub data Leading : Type 0 where
  failed : List ℕ → Leading
  passed : List ℕ → ℕ → ℕ → Leading

-- The return code, the buffer and `*in_out_len`.
pub record Decoded : Type 0 where
  pub rc : ℤ
  pub in_out : List ℕ
  pub in_out_len : ℕ

-- The loop over the leading blocks: the rounds left, the buffer, `in` and `out`.
unfoldable pub decode_leading : ℕ → List ℕ → ℕ → ℕ → Run Leading
decode_leading zero p i o = some (passed p i o)
decode_leading (suc n) p i o = do
  a ← load p i
  b ← load p (i + 1)
  c ← load p (i + 2)
  d ← load p (i + 3)
  if is_bad (bit_or (bit_or (bit_or (dec a) (dec b)) (dec c)) (dec d)) then some (failed p) else do
    p₁ ← store p o (byte_0 (dec a) (dec b))
    p₂ ← store p₁ (o + 1) (byte_1 (dec b) (dec c))
    p₃ ← store p₂ (o + 2) (byte_2 (dec c) (dec d))
    decode_leading n p₃ (i + 4) (o + 3)

-- The final block, with `len` on entry.
unfoldable pub decode_final : ℕ → List ℕ → ℕ → ℕ → Run Decoded
decode_final len p i o = do
  a ← load p i
  b ← load p (i + 1)
  c ← load p (i + 2)
  d ← load p (i + 3)
  let error : Decoded = record { rc = rc_error; in_out = p; in_out_len = len }
  if is_bad (dec a) || is_bad (dec b)
      then some error
      else if c == b'='
      then (if not (d == b'=') || not (i + 4 == len) then some error else do
        p₁ ← store p o (byte_0 (dec a) (dec b))
        some (record { rc = rc_ok; in_out = p₁; in_out_len = o + 1 }))
      else if is_bad (dec c)
      then some error
      else if d == b'='
      then (if not (i + 4 == len) then some error else do
        p₁ ← store p o (byte_0 (dec a) (dec b))
        p₂ ← store p₁ (o + 1) (byte_1 (dec b) (dec c))
        some (record { rc = rc_ok; in_out = p₂; in_out_len = o + 2 }))
      else if is_bad (dec d)
      then some error
      else do
        p₁ ← store p o (byte_0 (dec a) (dec b))
        p₂ ← store p₁ (o + 1) (byte_1 (dec b) (dec c))
        p₃ ← store p₂ (o + 2) (byte_2 (dec c) (dec d))
        some (record { rc = rc_ok; in_out = p₃; in_out_len = o + 3 })

-- What follows the leading blocks.
unfoldable pub decode_rest : ℕ → Leading → Run Decoded
decode_rest len (failed p) = some (record { rc = rc_error; in_out = p; in_out_len = len })
decode_rest len (passed p i o) = decode_final len p i o

-- lws_base64_decode
unfoldable pub base64_decode : List ℕ → ℕ → Run Decoded
base64_decode p len =
    if len == 0
    then some (record { rc = rc_ok; in_out = p; in_out_len = len })
    else if not (bit_and len 3 == 0)
    then some (record { rc = rc_error; in_out = p; in_out_len = len })
    else decode_leading (if ltb 1 (len / 4) then len / 4 - 1 else 0) p 0 0 >>= decode_rest len

-- The buffer with the indices `i_in` and `i_out`.
abbrev pub Cursor : Type 0
Cursor = List ℕ × ℕ × ℕ

-- The remainder: the buffer, `i_in` and `i_out`, for `rem` in {0, 1, 2}.
unfoldable pub encode_remainder : ℕ → List ℕ → ℕ → ℕ → Run Cursor
encode_remainder rem p i o =
    if rem == 1
    then (do
      (b0, i₁) ← load_back p i
      (p₁, o₁) ← store_back p o b'='
      (p₂, o₂) ← store_back p₁ o₁ b'='
      (p₃, o₃) ← store_back p₂ o₂ (enc (bit_and b0 0x03 * 2 ^ 4))
      (p₄, o₄) ← store_back p₃ o₃ (enc (bit_and (b0 / 2 ^ 2) 0x3F))
      some (p₄, i₁, o₄))
    else if rem == 2
    then (do
      (b1, i₁) ← load_back p i
      (b0, i₂) ← load_back p i₁
      let v = bit_or (b0 * 2 ^ 8) b1
      (p₁, o₁) ← store_back p o b'='
      (p₂, o₂) ← store_back p₁ o₁ (enc (bit_and (v * 2 ^ 2) 0x3F))
      (p₃, o₃) ← store_back p₂ o₂ (enc (bit_and (v / 2 ^ 4) 0x3F))
      (p₄, o₄) ← store_back p₃ o₃ (enc (bit_and (v / 2 ^ 10) 0x3F))
      some (p₄, i₂, o₄))
    else some (p, i, o)

-- The loop `while (full--)`.
unfoldable pub encode_blocks : ℕ → List ℕ → ℕ → ℕ → Run (List ℕ)
encode_blocks zero p i o = some p
encode_blocks (suc full) p i o = do
  (b2, i₁) ← load_back p i
  (b1, i₂) ← load_back p i₁
  (b0, i₃) ← load_back p i₂
  let v = bit_or (bit_or (b0 * 2 ^ 16) (b1 * 2 ^ 8)) b2
  (p₁, o₁) ← store_back p o (enc (bit_and v 0x3F))
  (p₂, o₂) ← store_back p₁ o₁ (enc (bit_and (v / 2 ^ 6) 0x3F))
  (p₃, o₃) ← store_back p₂ o₂ (enc (bit_and (v / 2 ^ 12) 0x3F))
  (p₄, o₄) ← store_back p₃ o₃ (enc (bit_and (v / 2 ^ 18) 0x3F))
  encode_blocks full p₄ i₃ o₄

-- `out` of lws_base64_encode
unfoldable pub encoded_size : ℕ → ℕ
encoded_size len = (len / 3 * 4 + (if len % 3 == 0 then 0 else 4)) % size_mod

-- lws_base64_encode: the buffer and `*in_out_len`.
unfoldable pub base64_encode : List ℕ → ℕ → Run (List ℕ × ℕ)
base64_encode p len = do
  (p₁, i, o) ← encode_remainder (len % 3) p len (encoded_size len)
  p₂ ← encode_blocks (len / 3) p₁ i o
  some (p₂, encoded_size len)

-- lws_base64_encode_len: `none` is the return code -1, a number is `*out_len` with the code 0.
unfoldable pub base64_encode_len : ℕ → Option ℕ
base64_encode_len in_len =
    let blocks = in_len / 3 + (if in_len % 3 == 0 then 0 else 1) in
    if ltb (size_max / 4) blocks then none else some (blocks * 4)
