-- ===== src/Table/Hash.antt =====
-- Keys of src/lws_table.c: `lws_table_hash` (lines 247 to 271, FNV-1a from the last byte to the first)
-- and the comparison of keys (lines 342 to 344), by strncmp, or by lws_strncasecmp where the table is
-- case-insensitive. Whether a `char` is signed differs by machine: `widen` is the conversion of a
-- byte, as a `char`, to lws_uint_t. The keys' bytes are read as far as the first zero byte.
use lambda_lws.Prelude.{
  ℕ, ◌*◌, ◌%◌, ◌<◌, ◌≡◌, refl, inl, inr, Bool, true, false, Bool-cases, ◌&&◌, List, [], ◌∷◌, bit_or,
  bit_xor, leb, ◌==◌, if◌then◌else◌, every_below, every_below-at, All, arith,
}
use lambda_lws.Codec.Base64.{size_mod}

-- lws_tolower: c >= 'A' && c <= 'Z' ? c | 0x20 : c
unfoldable pub to_lower : ℕ → ℕ
to_lower c = if leb b'A' c && leb c b'Z' then bit_or c 0x20 else c

-- The byte that the hash takes.
unfoldable pub folded : Bool → ℕ → ℕ
folded ci c = if ci then to_lower c else c

-- hash ^= c; hash *= prime
unfoldable pub hash_step : (ℕ → ℕ) → Bool → ℕ → ℕ → ℕ
hash_step widen ci c h = (bit_xor h (widen (folded ci c)) * 1099511628211) % size_mod

-- lws_table_hash. The loop goes from the last byte to the first, which is hashed last.
unfoldable pub table_hash : (ℕ → ℕ) → Bool → List ℕ → ℕ
table_hash widen ci [] = 14695981039346656037
table_hash widen ci (c ∷ cs) = hash_step widen ci c (table_hash widen ci cs)

-- strncmp(a, b, n) == 0, and lws_strncasecmp(a, b, n) == 0, on n bytes of each.
unfoldable pub same_text : Bool → List ℕ → List ℕ → Bool
same_text ci [] [] = true
same_text ci [] (y ∷ ys) = false
same_text ci (x ∷ xs) [] = false
same_text ci (x ∷ xs) (y ∷ ys) =
    let rest = same_text ci xs ys in
    if folded ci x == folded ci y then (if folded ci x == 0 then true else rest) else false

-- Bytes without a zero byte.
abbrev pub IsText : List ℕ → Type 0
IsText = All (λ c. 0 < c)

letter_pos : (c : ℕ) → c < 91 → leb 1 (bit_or c 32) ≡ true
letter_pos c h = unfold every_below in every_below-at 91 (λ c. leb 1 (bit_or c 32)) c refl h

hash_step_congr :
    (widen : ℕ → ℕ) (ci : Bool) (x y h k : ℕ)
    → folded ci x ≡ folded ci y
    → h ≡ k
    → hash_step widen ci x h ≡ hash_step widen ci y k
unfolding hash_step
hash_step_congr widen ci x y h k e q = cc

folded_pos : (ci : Bool) (c : ℕ) → 0 < c → 0 < folded ci c
unfolding folded to_lower
folded_pos ci c h = elim (Bool-cases (leb c 90)) [
  | inl e ↦ ground (arith, letter_pos c (ground (arith, e)))
  | inr e ↦ ground (arith, e)
]

-- Two keys, the first without zero bytes, that the comparison takes as one have the same hash, in
-- case-sensitive and in case-insensitive tables.
pub table_hash-same_text :
    (widen : ℕ → ℕ) (ci : Bool) (xs ys : List ℕ)
    → IsText xs
    → same_text ci xs ys ≡ true
    → table_hash widen ci xs ≡ table_hash widen ci ys
unfolding table_hash same_text
table_hash-same_text widen ci [] [] t h = refl
table_hash-same_text widen ci [] (y ∷ ys) t h = cc
table_hash-same_text widen ci (x ∷ xs) [] t h = cc
table_hash-same_text widen ci (x ∷ xs) (y ∷ ys) (p, t) h =
    elim (Bool-cases (folded ci x == folded ci y)) [
      | inl e ↦
          let same : folded ci x ≡ folded ci y = ground (arith, e) in
          let rest : same_text ci xs ys ≡ true = ground (arith, folded_pos ci x p) in
          let ih = table_hash-same_text widen ci xs ys t rest in
          hash_step_congr widen ci x y (table_hash widen ci xs) (table_hash widen ci ys) same ih
      | inr e ↦ absurd (clash e)
    ]
  where
    clash : (folded ci x == folded ci y) ≡ false → ⊥
    clash e = ground (arith, e, h)

same_text_refl : (ci : Bool) (xs : List ℕ) → same_text ci xs xs ≡ true
unfolding same_text
same_text_refl ci [] = refl
same_text_refl ci (x ∷ xs) = ground (arith, same_text_refl ci xs)
