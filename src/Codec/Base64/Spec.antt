-- ===== src/Codec/Base64/Spec.antt =====
-- Base64 as RFC 4648 defines it, by arithmetic on lists, with no table and no buffer.
use lambda_lws.Prelude.{
  ℕ, ◌+◌, ◌-◌, ◌*◌, ◌/◌, ◌%◌, ◌&&◌, Option, none, some, List, [], ◌∷◌, ltb, leb, ◌==◌,
  if◌then◌else◌, ◌>>=◌, ◌++◌,
}

-- The letter for a number of six bits.
unfoldable pub symbol : ℕ → ℕ
symbol v =
    if ltb v 26
    then b'A' + v
    else if ltb v 52
    then b'a' + (v - 26)
    else if ltb v 62
    then b'0' + (v - 52)
    else if v == 62
    then b'+'
    else b'/'

-- The number that a letter stands for.
unfoldable pub sextet : ℕ → Option ℕ
sextet c =
    if leb b'A' c && leb c b'Z'
    then some (c - b'A')
    else if leb b'a' c && leb c b'z'
    then some (c - b'a' + 26)
    else if leb b'0' c && leb c b'9'
    then some (c - b'0' + 52)
    else if c == b'+'
    then some 62
    else if c == b'/'
    then some 63
    else none

-- Three bytes are four letters; one or two bytes at the end are padded with `=`.
unfoldable pub encode : List ℕ → List ℕ
encode [] = []
encode (a ∷ []) = symbol (a / 4) ∷ symbol (a % 4 * 16) ∷ b'=' ∷ b'=' ∷ []
encode (a ∷ b ∷ []) =
    symbol (a / 4) ∷ symbol (a % 4 * 16 + b / 16) ∷ symbol (b % 16 * 4) ∷ b'=' ∷ []
encode (a ∷ b ∷ c ∷ r) =
    symbol (a / 4)
    ∷ symbol (a % 4 * 16 + b / 16)
    ∷ symbol (b % 16 * 4 + c / 64)
    ∷ symbol (c % 64)
    ∷ encode r

-- Four numbers of six bits are three bytes.
unfoldable pub octets : ℕ → ℕ → ℕ → ℕ → List ℕ
octets va vb vc vd = (va * 4 + vb / 16) ∷ (vb % 16 * 16 + vc / 4) ∷ (vc % 4 * 64 + vd) ∷ []

-- A block of four letters that is not the last.
unfoldable pub decode_inner : ℕ → ℕ → ℕ → ℕ → Option (List ℕ)
decode_inner a b c d = do
  va ← sextet a
  vb ← sextet b
  vc ← sextet c
  vd ← sextet d
  some (octets va vb vc vd)

-- The last block, which may be padded. The bits that padding leaves over are not looked at.
unfoldable pub decode_last : ℕ → ℕ → ℕ → ℕ → Option (List ℕ)
decode_last a b c d = do
  va ← sextet a
  vb ← sextet b
  if c == b'=' then if d == b'=' then some ((va * 4 + vb / 16) ∷ []) else none else do
    vc ← sextet c
    if d == b'='
        then some ((va * 4 + vb / 16) ∷ (vb % 16 * 16 + vc / 4) ∷ [])
        else do vd ← sextet d; some (octets va vb vc vd)

-- A text is decoded in blocks of four letters; none if its length is no multiple of 4.
unfoldable pub decode : List ℕ → Option (List ℕ)
decode [] = some []
decode (a ∷ b ∷ c ∷ d ∷ []) = decode_last a b c d
decode (a ∷ b ∷ c ∷ d ∷ (e ∷ r)) = do
  xs ← decode_inner a b c d
  ys ← decode (e ∷ r)
  some (xs ++ ys)
decode _ = none
