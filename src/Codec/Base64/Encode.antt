-- ===== src/Codec/Base64/Encode.antt =====
-- The whole of `lws_base64_encode`: the remainder first, then the full blocks.
use native.Mathlib.Numerals.{add-one, add-two}
use native.Mathlib.Nat.{add-zero}
use lambda_lws.Prelude.{
  ℕ, suc, ◌+◌, ◌-◌, ◌*◌, ◌/◌, ◌%◌, ◌^◌, ◌≤◌, ◌<◌, ◌≡◌, refl, sym, ap, subst, ◌∙◌, none, some, List,
  [], ◌∷◌, ◌++◌, append_assoc, length, length-append, drop, drop-append, cut, IsBytes, All-append,
  and_3, load_back_at, store_back_at, load, store, arith, ◌==◌, leb, if◌then◌else◌,
}
use lambda_lws.Codec.Base64.Spec
use lambda_lws.Codec.Base64.Spec.{symbol}
use lambda_lws.Codec.Base64.Blocks.{
  enc_lem, letter, word_2, encode-append, encode_blocks_lem, four_more,
}
use lambda_lws.Codec.Base64.{
  base64_encode_len, size_max, encode_remainder, encoded_size, base64_encode, size_mod,
}

-- One byte at the end becomes two letters and two pads.
one_left :
    (ys rs ps ts : List ℕ) (a w x y z : ℕ)
    → a < 256
    → ys ++ a ∷ rs ≡ ps ++ w ∷ x ∷ y ∷ z ∷ ts
    → encode_remainder 1 (ys ++ a ∷ rs) (suc (length ys)) (suc (suc (suc (suc (length ps)))))
      ≡ some (ps ++ (Spec.encode (a ∷ []) ++ ts), length ys, length ps)
unfolding encode_remainder Spec.encode load store
one_left ys rs ps ts a w x y z ha e = rw (
  load_back_at ys (a ∷ rs) 0 (length ys) (omega arith) refl,
  e,
  and_3 a,
  letter (a / 2 ^ 2) (a / 4) (omega arith),
  store_back_at ps (w ∷ x ∷ y ∷ z ∷ ts) 3 (suc (suc (suc m₀))) b'=' (omega arith) refl,
  store_back_at ps (w ∷ x ∷ y ∷ b'=' ∷ ts) 2 (suc (suc m₀)) b'=' (omega arith) refl,
  enc_lem (a % 4 * 2 ^ 4) (omega arith),
  store_back_at ps (w ∷ x ∷ b'=' ∷ b'=' ∷ ts) 1 (suc m₀) s₁ (omega arith) refl,
  store_back_at ps (w ∷ s₁ ∷ b'=' ∷ b'=' ∷ ts) 0 m₀ s₀ (omega arith) refl,
)
  where
    m₀ : ℕ
    m₀ = length ps

    s₀ : ℕ
    s₀ = symbol (a / 4)

    s₁ : ℕ
    s₁ = symbol (a % 4 * 16)

-- Two bytes at the end become three letters and a pad.
two_left :
    (ys rs ps ts : List ℕ) (a b w x y z : ℕ)
    → a < 256
    → b < 256
    → ys ++ a ∷ b ∷ rs ≡ ps ++ w ∷ x ∷ y ∷ z ∷ ts
    → encode_remainder 2
        (ys ++ a ∷ b ∷ rs)
        (suc (suc (length ys)))
        (suc (suc (suc (suc (length ps)))))
      ≡ some (ps ++ (Spec.encode (a ∷ b ∷ []) ++ ts), length ys, length ps)
unfolding encode_remainder Spec.encode load store
two_left ys rs ps ts a b w x y z ha hb e = rw (
  load_back_at ys (a ∷ b ∷ rs) 1 (suc (length ys)) (omega arith) refl,
  load_back_at ys (a ∷ b ∷ rs) 0 (length ys) (omega arith) refl,
  e,
  word_2 a b hb,
  letter ((a * 256 + b) * 2 ^ 2) (b % 16 * 4) (omega arith),
  letter ((a * 256 + b) / 2 ^ 4) (a % 4 * 16 + b / 16) (omega arith),
  letter ((a * 256 + b) / 2 ^ 10) (a / 4) (omega arith),
  store_back_at ps (w ∷ x ∷ y ∷ z ∷ ts) 3 (suc (suc (suc m₀))) b'=' (omega arith) refl,
  store_back_at ps (w ∷ x ∷ y ∷ b'=' ∷ ts) 2 (suc (suc m₀)) s₂ (omega arith) refl,
  store_back_at ps (w ∷ x ∷ s₂ ∷ b'=' ∷ ts) 1 (suc m₀) s₁ (omega arith) refl,
  store_back_at ps (w ∷ s₁ ∷ s₂ ∷ b'=' ∷ ts) 0 m₀ s₀ (omega arith) refl,
)
  where
    m₀ : ℕ
    m₀ = length ps

    s₀ : ℕ
    s₀ = symbol (a / 4)

    s₁ : ℕ
    s₁ = symbol (a % 4 * 16 + b / 16)

    s₂ : ℕ
    s₂ = symbol (b % 16 * 4)

-- What the remainder leaves: a buffer with room for the letters of `n` blocks before those of the
-- bytes `xs` that are left over, and all that stood behind as it was.
record Left (n : ℕ) (ys xs room : List ℕ) : Type 0 where
  ms : List ℕ
  ts : List ℕ
  length-ms : length ms ≡ n
  runs :
      encode_remainder
        (length xs)
        (ys ++ (xs ++ room))
        (length ys + length xs)
        (4 * n + length (Spec.encode xs))
      ≡ some (ys ++ (ms ++ (Spec.encode xs ++ ts)), 3 * n, 4 * n)
  behind : drop (4 * n + length (Spec.encode xs)) (ys ++ (xs ++ room)) ≡ ts

drop_same :
    (k : ℕ) (ps qs ts : List ℕ) {p : List ℕ}
    → p ≡ ps ++ (qs ++ ts)
    → length ps + length qs ≡ k
    → drop k p ≡ ts
drop_same k ps qs ts e h =
    ap (drop k) (e ∙ sym (append_assoc ps qs ts))
    ∙ drop-append k (ps ++ qs) ts (length-append ps qs ∙ h)

-- The four letters of a remainder of one or two bytes, given what their writing does.
four_written :
    (n k : ℕ) (ys : List ℕ) (xs room : List ℕ)
    → length ys ≡ 3 * n
    → length (Spec.encode xs) ≡ 4
    → length (xs ++ room) ≡ n + (4 + k)
    → ((ps ts : List ℕ) (w x y z : ℕ)
        → ys ++ (xs ++ room) ≡ ps ++ w ∷ x ∷ y ∷ z ∷ ts
        → encode_remainder
            (length xs)
            (ys ++ (xs ++ room))
            (length ys + length xs)
            (suc (suc (suc (suc (length ps)))))
          ≡ some (ps ++ (Spec.encode xs ++ ts), length ys, length ps))
    → Left n ys xs room
four_written n k ys xs room hy h4 hl write =
    let (ms, qs, em, lm, lq) = cut n (4 + k) (xs ++ room) hl in
    let (w, x, y, z, ts, eq, lt) = four_more k qs lq in
    let buffer : ys ++ (xs ++ room) ≡ (ys ++ ms) ++ w ∷ x ∷ y ∷ z ∷ ts =
      ap (λ t. ys ++ t) (em ∙ ap (λ t. ms ++ t) eq) ∙ sym (append_assoc ys ms _) in
    let end : length (ys ++ ms) ≡ 4 * n = length-append ys ms ∙ omega arith in
    record {
      ms = ms;
      ts = ts;
      length-ms = lm;
      runs =
          rw (h4, subst (λ (t : ℕ). 4 * n + 4 ≡ suc (suc (suc (suc t)))) (sym end) (omega arith))
            (write (ys ++ ms) ts w x y z buffer
              ∙ (λ j. some (append_assoc ys ms (Spec.encode xs ++ ts) j, hy j, end j)));
      behind = drop_same _ (ys ++ ms) (w ∷ x ∷ y ∷ z ∷ []) ts buffer (omega (arith, h4));
    }

remainder_lem :
    (n k : ℕ) (ys xs room : List ℕ)
    → IsBytes xs
    → length xs < 3
    → length ys ≡ 3 * n
    → length xs + length room ≡ n + length (Spec.encode xs) + k
    → Left n ys xs room
unfolding Spec.encode
remainder_lem n k ys [] room v h hy hl =
    let (ms, ts, e, lm, lt) = cut n k room (omega arith) in
    record {
      ms = ms;
      ts = ts;
      length-ms = lm;
      runs = unfold encode_remainder in (λ j. some (ys ++ e j, nothing_left j, add-zero (4 * n) j));
      behind = drop_same _ ys ms ts (ap (λ t. ys ++ t) e) (omega arith);
    }
  where
    nothing_left : length ys + 0 ≡ 3 * n
    nothing_left = omega arith
remainder_lem n k ys (a ∷ []) room v h hy hl =
    four_written n k ys (a ∷ []) room hy refl (omega arith)
      (λ ps ts w x y z e. rw add-one (one_left ys room ps ts a w x y z v.0 e))
remainder_lem n k ys (a ∷ b ∷ []) room v h hy hl =
    four_written n k ys (a ∷ b ∷ []) room hy refl (omega arith)
      (λ ps ts w x y z e. rw add-two (two_left ys room ps ts a b w x y z v.0 v.1.0 e))
remainder_lem n k ys (a ∷ b ∷ c ∷ xs) room v h hy hl = absurd (omega arith)

length-encode_left :
    (xs : List ℕ) → length xs < 3 → length (Spec.encode xs) ≡ (if length xs == 0 then 0 else 4)
unfolding Spec.encode
length-encode_left [] h = refl
length-encode_left (a ∷ []) h = refl
length-encode_left (a ∷ b ∷ []) h = refl
length-encode_left (a ∷ b ∷ c ∷ xs) h = absurd (omega arith)

-- The length of the text: four letters for every three bytes begun.
pub length-encode : (xs : List ℕ) → length (Spec.encode xs) ≡ (length xs + 2) / 3 * 4
unfolding Spec.encode
length-encode [] = refl
length-encode (a ∷ []) = refl
length-encode (a ∷ b ∷ []) = refl
length-encode (a ∷ b ∷ c ∷ xs) = omega (arith, length-encode xs)

encoded_size_lem :
    (xs : List ℕ)
    → length (Spec.encode xs) < size_mod
    → encoded_size (length xs) ≡ length (Spec.encode xs)
unfolding encoded_size
encoded_size_lem xs h = ground (arith, length-encode xs)

-- The remainder and the loop together, on whole blocks `ys` and what is left over, `zs`.
whole :
    (n len size : ℕ) (ys zs room : List ℕ)
    → IsBytes ys
    → len ≡ length ys + length zs
    → len / 3 ≡ n
    → len % 3 ≡ length zs
    → encoded_size len ≡ size
    → size ≡ 4 * n + length (Spec.encode zs)
    → length ys ≡ 3 * n
    → Left n ys zs room
    → base64_encode (ys ++ (zs ++ room)) len
      ≡ some ((Spec.encode ys ++ Spec.encode zs) ++ drop size (ys ++ (zs ++ room)), size)
unfolding base64_encode
whole n len size ys zs room v hl hd hm hs he hy left =
    rw (hm, hd, hs, hl, he, left.runs)
      (rw (
        encode_blocks_lem n (3 * n) (4 * n) ys left.ms (Spec.encode zs ++ left.ts) v hy
            left.length-ms refl refl,
        left.behind,
        append_assoc (Spec.encode ys) (Spec.encode zs) left.ts,
      ))

-- `lws_base64_encode` on a buffer that holds the bytes `xs` and has room for their text ends with no
-- access outside the buffer, leaves the text of RFC 4648 at its start and all behind the text as it
-- was, and sets the length to that of the text.
pub base64_encode_lem :
    (xs room : List ℕ)
    → IsBytes xs
    → length (Spec.encode xs) ≤ length (xs ++ room)
    → length (xs ++ room) < size_mod
    → base64_encode (xs ++ room) (length xs)
      ≡ some
          (Spec.encode xs ++ drop (length (Spec.encode xs)) (xs ++ room), length (Spec.encode xs))
base64_encode_lem xs room v fits small =
    let (ys, zs, e, ly, lz) = cut (3 * (length xs / 3)) (length xs % 3) xs (omega arith) in
    let eh : Spec.encode xs ≡ Spec.encode ys ++ Spec.encode zs =
      ap Spec.encode e ∙ encode-append (length xs / 3) ys zs ly in
    let bytes = All-append (λ t. t < 256) ys zs (subst IsBytes e v) in
    let lx : length xs ≡ length ys + length zs = ap length e ∙ length-append ys zs in
    let buffer : xs ++ room ≡ ys ++ (zs ++ room) =
      ap (λ t. t ++ room) e ∙ append_assoc ys zs room in
    let lb : length (xs ++ room) ≡ length xs + length room = length-append xs room in
    let le : length (Spec.encode zs) ≡ (length zs + 2) / 3 * 4 = length-encode zs in
    let lex : length (Spec.encode xs) ≡ (length xs + 2) / 3 * 4 = length-encode xs in
    let left : Left (length xs / 3) ys zs room =
      remainder_lem (length xs / 3) (length (xs ++ room) - length (Spec.encode xs)) ys zs room
        bytes.1 (omega arith) ly (omega arith) in
    rw (buffer, eh)
      (whole (length xs / 3) (length xs) (length (Spec.encode ys ++ Spec.encode zs)) ys zs room
        bytes.0 lx refl (sym lz) (encoded_size_lem xs (omega arith) ∙ ap length eh)
        (sym (ap length eh) ∙ omega arith) ly left)

-- `lws_base64_encode_len` gives the length of the text of `xs`, and -1 exactly when no `size_t` holds it.
pub base64_encode_len-encode :
    (xs : List ℕ)
    → length xs < size_mod
    → base64_encode_len (length xs)
      ≡ (if leb (length (Spec.encode xs)) size_max then some (length (Spec.encode xs)) else none)
unfolding base64_encode_len
base64_encode_len-encode xs h = ground (arith, length-encode xs)
