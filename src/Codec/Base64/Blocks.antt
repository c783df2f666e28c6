-- ===== src/Codec/Base64/Blocks.antt =====
-- The loop of `lws_base64_encode` over the full blocks, from the end of the buffer to its start, in
-- place, puts the text of the RFC there.
use lambda_lws.Prelude.{
  ℕ, zero, suc, ◌+◌, ◌*◌, ◌/◌, ◌%◌, ◌^◌, ◌<◌, bit_and, bit_or, ◌≡◌, true, refl, sym, ap, subst, ◌∙◌,
  some, List, [], ◌∷◌, ◌++◌, append_assoc, length, length-append, cut, IsBytes, All-append, ◌==◌,
  ==_iff, every_below, every_below-at, or_shifted, and_63, load_back_at, store_back_at, load, store,
  arith,
}
use lambda_lws.Codec.Base64.Spec
use lambda_lws.Codec.Base64.Spec.{symbol}
use lambda_lws.Codec.Base64.{b64_enc_tbl, enc, encode_blocks}

enc_table : every_below 64 (λ v. enc v == symbol v) ≡ true
unfolding every_below enc b64_enc_tbl symbol
enc_table = refl

-- The table holds the letters of the RFC.
pub enc_lem : (v : ℕ) → v < 64 → enc v ≡ symbol v
enc_lem v h = (==_iff _ _).0 (every_below-at 64 (λ v. enc v == symbol v) v enc_table h)

-- The numbers of six bits that the shifts and masks pick out.
pub word_2 : (a b : ℕ) → b < 256 → bit_or (a * 2 ^ 8) b ≡ a * 256 + b
word_2 a b h = or_shifted 8 a b h

word_3 :
    (a b c : ℕ)
    → b < 256
    → c < 256
    → bit_or (bit_or (a * 2 ^ 16) (b * 2 ^ 8)) c ≡ a * 65536 + b * 256 + c
word_3 a b c hb hc =
    ap (λ t. bit_or t c) (or_shifted 16 a (b * 2 ^ 8) (omega arith))
    ∙ (ap (λ t. bit_or t c) regroup ∙ (or_shifted 8 (a * 256 + b) c hc ∙ omega arith))
  where
    regroup : a * 2 ^ 16 + b * 2 ^ 8 ≡ (a * 256 + b) * 2 ^ 8
    regroup = omega arith

pub letter : (x v : ℕ) → x % 64 ≡ v → enc (bit_and x 0x3F) ≡ symbol v
letter x v e = ap enc (and_63 x) ∙ (enc_lem (x % 64) (omega arith) ∙ ap symbol e)

-- A block of three bytes is read at the end of `ys`, and four letters are written at the end of `ps`,
-- where the two views are of one buffer.
block_step :
    (n : ℕ) (ys ms ps ts : List ℕ) (a b c w x y z : ℕ)
    → a < 256
    → b < 256
    → c < 256
    → ys ++ a ∷ b ∷ c ∷ ms ≡ ps ++ w ∷ x ∷ y ∷ z ∷ ts
    → encode_blocks
        (suc n)
        (ys ++ a ∷ b ∷ c ∷ ms)
        (suc (suc (suc (length ys))))
        (suc (suc (suc (suc (length ps)))))
      ≡ encode_blocks n (ps ++ (Spec.encode (a ∷ b ∷ c ∷ []) ++ ts)) (length ys) (length ps)
unfolding encode_blocks Spec.encode load store
block_step n ys ms ps ts a b c w x y z ha hb hc e = rw (
  load_back_at ys (a ∷ b ∷ c ∷ ms) 2 (suc (suc n₀)) (omega arith) refl,
  load_back_at ys (a ∷ b ∷ c ∷ ms) 1 (suc n₀) (omega arith) refl,
  load_back_at ys (a ∷ b ∷ c ∷ ms) 0 n₀ (omega arith) refl,
  e,
  word_3 a b c hb hc,
  letter (a * 65536 + b * 256 + c) (c % 64) (omega arith),
  letter ((a * 65536 + b * 256 + c) / 2 ^ 6) (b % 16 * 4 + c / 64) (omega arith),
  letter ((a * 65536 + b * 256 + c) / 2 ^ 12) (a % 4 * 16 + b / 16) (omega arith),
  letter ((a * 65536 + b * 256 + c) / 2 ^ 18) (a / 4) (omega arith),
  store_back_at ps (w ∷ x ∷ y ∷ z ∷ ts) 3 (suc (suc (suc m₀))) s₃ (omega arith) refl,
  store_back_at ps (w ∷ x ∷ y ∷ s₃ ∷ ts) 2 (suc (suc m₀)) s₂ (omega arith) refl,
  store_back_at ps (w ∷ x ∷ s₂ ∷ s₃ ∷ ts) 1 (suc m₀) s₁ (omega arith) refl,
  store_back_at ps (w ∷ s₁ ∷ s₂ ∷ s₃ ∷ ts) 0 m₀ s₀ (omega arith) refl,
)
  where
    n₀ : ℕ
    n₀ = length ys

    m₀ : ℕ
    m₀ = length ps

    s₀ : ℕ
    s₀ = symbol (a / 4)

    s₁ : ℕ
    s₁ = symbol (a % 4 * 16 + b / 16)

    s₂ : ℕ
    s₂ = symbol (b % 16 * 4 + c / 64)

    s₃ : ℕ
    s₃ = symbol (c % 64)

three : (zs : List ℕ) → length zs ≡ 3 → (a : ℕ) × (b : ℕ) × (c : ℕ) × (zs ≡ a ∷ b ∷ c ∷ [])
three (a ∷ b ∷ c ∷ []) h = (a, b, c, refl)
three [] h = absurd (omega arith)
three (a ∷ []) h = absurd (omega arith)
three (a ∷ b ∷ []) h = absurd (omega arith)
three (a ∷ b ∷ c ∷ d ∷ r) h = absurd (omega arith)

pub four_more :
    (k : ℕ) (zs : List ℕ)
    → length zs ≡ 4 + k
    → (w : ℕ) × (x : ℕ) × (y : ℕ) × (z : ℕ) × (ts : List ℕ) × (zs ≡ w ∷ x ∷ y ∷ z ∷ ts)
      × (length ts ≡ k)
four_more k (w ∷ x ∷ y ∷ z ∷ ts) h = (w, x, y, z, ts, refl, omega arith)
four_more k [] h = absurd (omega arith)
four_more k (a ∷ []) h = absurd (omega arith)
four_more k (a ∷ b ∷ []) h = absurd (omega arith)
four_more k (a ∷ b ∷ c ∷ []) h = absurd (omega arith)

pub nil_of_length : (ts : List ℕ) → length ts ≡ 0 → ts ≡ []
nil_of_length [] h = refl
nil_of_length (t ∷ ts) h = absurd (omega arith)

-- Whole blocks are encoded apart from what follows.
pub encode-append :
    (n : ℕ) (ys zs : List ℕ)
    → length ys ≡ 3 * n
    → Spec.encode (ys ++ zs) ≡ Spec.encode ys ++ Spec.encode zs
unfolding Spec.encode
encode-append zero [] zs h = refl
encode-append zero (a ∷ ys) zs h = absurd (omega arith)
encode-append (suc n) [] zs h = absurd (omega arith)
encode-append (suc n) (a ∷ []) zs h = absurd (omega arith)
encode-append (suc n) (a ∷ b ∷ []) zs h = absurd (omega arith)
encode-append (suc n) (a ∷ b ∷ c ∷ ys) zs h = rw (encode-append n ys zs (omega arith))

-- The step on the buffer of the loop: the bytes `ms` between the two cursors become `ms'`.
loop_step :
    (n i o : ℕ) (ys ms ms' ts : List ℕ) (a b c w x y z : ℕ)
    → IsBytes (a ∷ b ∷ c ∷ [])
    → a ∷ b ∷ c ∷ ms ≡ ms' ++ w ∷ x ∷ y ∷ z ∷ []
    → i ≡ suc (suc (suc (length ys)))
    → o ≡ suc (suc (suc (suc (length ys + length ms'))))
    → encode_blocks (suc n) ((ys ++ a ∷ b ∷ c ∷ []) ++ (ms ++ ts)) i o
      ≡ encode_blocks n
          (ys ++ (ms' ++ (Spec.encode (a ∷ b ∷ c ∷ []) ++ ts)))
          (length ys)
          (length ys + length ms')
loop_step n i o ys ms ms' ts a b c w x y z v e hi ho =
    rw (hi, ho, ← length-append ys ms', append_assoc ys (a ∷ b ∷ c ∷ []) (ms ++ ts))
      (block_step n ys (ms ++ ts) (ys ++ ms') ts a b c w x y z v.0 v.1.0 v.1.1.0 same
        ∙ ap (λ p. encode_blocks n p (length ys) (length (ys ++ ms')))
            (append_assoc ys ms' (Spec.encode (a ∷ b ∷ c ∷ []) ++ ts)))
  where
    same : ys ++ a ∷ b ∷ c ∷ (ms ++ ts) ≡ (ys ++ ms') ++ w ∷ x ∷ y ∷ z ∷ ts
    same =
        ap (λ p. ys ++ (p ++ ts)) e
        ∙ (ap (λ p. ys ++ p) (append_assoc ms' (w ∷ x ∷ y ∷ z ∷ []) ts)
            ∙ sym (append_assoc ys ms' (w ∷ x ∷ y ∷ z ∷ ts)))

-- The loop over the full blocks: `n` blocks stand at the start of the buffer, and their letters
-- go to its first `4 * n` places, past the `n` bytes `ms` between.
pub encode_blocks_lem :
    (n i o : ℕ) (ys ms ts : List ℕ)
    → IsBytes ys
    → length ys ≡ 3 * n
    → length ms ≡ n
    → i ≡ 3 * n
    → o ≡ 4 * n
    → encode_blocks n (ys ++ (ms ++ ts)) i o ≡ some (Spec.encode ys ++ ts)
encode_blocks_lem zero i o [] [] ts v hy hm hi ho = unfold encode_blocks Spec.encode in refl
encode_blocks_lem zero i o [] (m ∷ ms) ts v hy hm hi ho = absurd (omega arith)
encode_blocks_lem zero i o (y ∷ ys) ms ts v hy hm hi ho = absurd (omega arith)
encode_blocks_lem (suc n) i o ys ms ts v hy hm hi ho =
    let (ys', zs, ey, ly, lz) = cut (3 * n) 3 ys (omega arith) in
    let (a, b, c, ez) = three zs lz in
    let (ms', qs, em, lm, lq) = cut n 4 (a ∷ b ∷ c ∷ ms) (omega arith) in
    let (w, x, y, z, ts', eq, lt) = four_more 0 qs lq in
    let parts : ys ≡ ys' ++ a ∷ b ∷ c ∷ [] = ey ∙ ap (λ t. ys' ++ t) ez in
    let bytes = All-append (λ t. t < 256) ys' (a ∷ b ∷ c ∷ []) (subst IsBytes parts v) in
    let block : a ∷ b ∷ c ∷ ms ≡ ms' ++ w ∷ x ∷ y ∷ z ∷ [] =
      em ∙ ap (λ t. ms' ++ t) (eq ∙ ap (λ t. w ∷ x ∷ y ∷ z ∷ t) (nil_of_length ts' lt)) in
    rw (parts, encode-append n ys' (a ∷ b ∷ c ∷ []) ly)
      (loop_step n i o ys' ms ms' ts a b c w x y z bytes.1 block (omega arith) (omega arith)
        ∙ (encode_blocks_lem n (length ys') (length ys' + length ms') ys' ms'
              (Spec.encode (a ∷ b ∷ c ∷ []) ++ ts) bytes.0 ly lm ly (omega arith)
            ∙ ap some (sym (append_assoc (Spec.encode ys') (Spec.encode (a ∷ b ∷ c ∷ [])) ts))))
