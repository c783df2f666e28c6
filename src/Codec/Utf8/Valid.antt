-- ===== src/Codec/Utf8/Valid.antt =====
-- `lws_valid_utf8` accepts the texts of scalar values, and no others.
use lambda_lws.Prelude.{
  ℕ, zero, suc, ◌+◌, ◌-◌, ◌*◌, ◌/◌, ◌%◌, ◌≤◌, ◌<◌, ◌≡◌, refl, ap, sym, subst, ◌∙◌, ◌⊎◌, ◌≢◌, inl,
  inr, ◌↔◌, Bool-cases, List, [], ◌∷◌, ◌++◌, length, ltb, ◌==◌, All, IsBytes, rc_ok, rc_error,
  arith,
}
use lambda_lws.Codec.Utf8.{next, utf8_loop, valid_utf8}
use lambda_lws.Codec.Utf8.Spec.{IsScalar, utf8, utf8_text}
use lambda_lws.Codec.Utf8.Automaton.{
  Goes, lead, next-lead, Goes-24, Goes-36, Goes-48, Goes-60, Goes-72, Goes-84, Goes-96,
}

abbrev Accepts : ℕ → List ℕ → Type 0
Accepts s bs = utf8_loop s bs ≡ rc_ok

-- An accepted rest behind a state of one range starts with a byte of the range.
record Onward (lo hi t : ℕ) (bs : List ℕ) : Type 0 where
  byte : ℕ
  rest : List ℕ
  parts : bs ≡ byte ∷ rest
  above : lo ≤ byte
  below : byte ≤ hi
  accepted : Accepts t rest
  bytes : IsBytes rest

onward :
    (s lo hi t : ℕ) (bs : List ℕ)
    → 0 < s
    → Goes s lo hi t
    → IsBytes bs
    → Accepts s bs
    → Onward lo hi t bs
unfolding utf8_loop
onward s lo hi t [] h goes v a = absurd (ground arith)
onward s lo hi t (b ∷ bs) h goes v a = record {
  byte = b;
  rest = bs;
  parts = refl;
  above = ground (arith, goes b v.0);
  below = ground (arith, goes b v.0);
  accepted = ground (arith, goes b v.0);
  bytes = v.1;
}

-- An accepted text that is not empty starts with the bytes of a scalar value.
record First (bs : List ℕ) : Type 0 where
  scalar : ℕ
  rest : List ℕ
  is_scalar : IsScalar scalar
  parts : bs ≡ utf8 scalar ++ rest
  accepted : Accepts 0 rest
  bytes : IsBytes rest
  shorter : length rest < length bs

-- The bytes of a scalar value of each length, from its digits in base 64.
utf8_2 :
    (b b₁ : ℕ)
    → 0xC2 ≤ b
    → b < 0xE0
    → 0x80 ≤ b₁
    → b₁ ≤ 0xBF
    → utf8 ((b - 0xC0) * 64 + (b₁ - 0x80)) ≡ b ∷ b₁ ∷ []
unfolding utf8
utf8_2 b b₁ h₁ h₂ h₃ h₄ = ground arith

utf8_3 :
    (b b₁ b₂ : ℕ)
    → 0xE0 ≤ b
    → b < 0xF0
    → 0x80 ≤ b₁
    → b₁ ≤ 0xBF
    → 0x80 ≤ b₂
    → b₂ ≤ 0xBF
    → 0x800 ≤ (b - 0xE0) * 4096 + (b₁ - 0x80) * 64
    → utf8 ((b - 0xE0) * 4096 + (b₁ - 0x80) * 64 + (b₂ - 0x80)) ≡ b ∷ b₁ ∷ b₂ ∷ []
unfolding utf8
utf8_3 b b₁ b₂ h₁ h₂ h₃ h₄ h₅ h₆ h₇ = ground arith

utf8_4 :
    (b b₁ b₂ b₃ : ℕ)
    → 0xF0 ≤ b
    → b < 0xF5
    → 0x80 ≤ b₁
    → b₁ ≤ 0xBF
    → 0x80 ≤ b₂
    → b₂ ≤ 0xBF
    → 0x80 ≤ b₃
    → b₃ ≤ 0xBF
    → 0x10000 ≤ (b - 0xF0) * 262144 + (b₁ - 0x80) * 4096
    → utf8 ((b - 0xF0) * 262144 + (b₁ - 0x80) * 4096 + (b₂ - 0x80) * 64 + (b₃ - 0x80))
      ≡ b ∷ b₁ ∷ b₂ ∷ b₃ ∷ []
unfolding utf8
utf8_4 b b₁ b₂ b₃ h₁ h₂ h₃ h₄ h₅ h₆ h₇ h₈ h₉ = ground arith

First-1 : (b : ℕ) (r : List ℕ) → b < 0x80 → IsBytes r → Accepts 0 r → First (b ∷ r)
unfolding utf8
First-1 b r h v a = record {
  scalar = b;
  rest = r;
  is_scalar = inl (omega arith);
  parts = ground arith;
  accepted = a;
  bytes = v;
  shorter = omega arith;
}

First-2 : (b : ℕ) (r : List ℕ) → 0xC2 ≤ b → b < 0xE0 → IsBytes r → Accepts 24 r → First (b ∷ r)
First-2 b r h₁ h₂ v a =
    let one = onward 24 0x80 0xBF 0 r (omega arith) Goes-24 v a in
    record {
      scalar = (b - 0xC0) * 64 + (one.byte - 0x80);
      rest = one.rest;
      is_scalar = inl (omega (arith, one.below));
      parts = rw (utf8_2 b one.byte h₁ h₂ one.above one.below) (ap (λ t. b ∷ t) one.parts);
      accepted = one.accepted;
      bytes = one.bytes;
      shorter = omega (arith, ap length one.parts);
    }

-- The second byte of a longer sequence lies between `lo` and `hi`: neither a longer form of a smaller
-- number nor a surrogate comes out.
First-3 :
    (b lo hi : ℕ) (r : List ℕ)
    → 0xE0 ≤ b
    → b < 0xF0
    → 0x80 ≤ lo
    → hi ≤ 0xBF
    → 0x800 ≤ (b - 0xE0) * 4096 + (lo - 0x80) * 64
    → ((b - 0xE0) * 4096 + (hi - 0x80) * 64 + 64 ≤ 0xD800)
      ⊎ (0xE000 ≤ (b - 0xE0) * 4096 + (lo - 0x80) * 64)
    → Onward lo hi 24 r
    → First (b ∷ r)
First-3 b lo hi r h₁ h₂ h₃ h₄ h₅ h₆ two =
    let one = onward 24 0x80 0xBF 0 two.rest (omega arith) Goes-24 two.bytes two.accepted in
    record {
      scalar = (b - 0xE0) * 4096 + (two.byte - 0x80) * 64 + (one.byte - 0x80);
      rest = one.rest;
      is_scalar = elim h₆ [
        | inl h ↦ inl (omega (arith, two.above, two.below, one.above, one.below))
        | inr h ↦ inr (omega (arith, two.above), omega (arith, two.below, one.above, one.below))
      ];
      parts =
          rw
            (utf8_3 b two.byte one.byte h₁ h₂ (omega (arith, two.above)) (omega (arith, two.below))
              one.above one.below (omega (arith, two.above)))
            (ap (λ t. b ∷ t) (two.parts ∙ ap (λ t. two.byte ∷ t) one.parts));
      accepted = one.accepted;
      bytes = one.bytes;
      shorter = omega (arith, ap length one.parts, ap length two.parts);
    }

First-4 :
    (b lo hi : ℕ) (r : List ℕ)
    → 0xF0 ≤ b
    → b < 0xF5
    → 0x80 ≤ lo
    → hi ≤ 0xBF
    → 0x10000 ≤ (b - 0xF0) * 262144 + (lo - 0x80) * 4096
    → (b - 0xF0) * 262144 + (hi - 0x80) * 4096 + 4096 ≤ 0x110000
    → Onward lo hi 36 r
    → First (b ∷ r)
First-4 b lo hi r h₁ h₂ h₃ h₄ h₅ h₆ three =
    let two = onward 36 0x80 0xBF 24 three.rest (omega arith) Goes-36 three.bytes three.accepted in
    let one = onward 24 0x80 0xBF 0 two.rest (omega arith) Goes-24 two.bytes two.accepted in
    record {
      scalar =
          (b - 0xF0) * 262144
          + (three.byte - 0x80) * 4096
          + (two.byte - 0x80) * 64
          + (one.byte - 0x80);
      rest = one.rest;
      is_scalar = inr (
        omega (arith, three.above),
        omega (arith, three.below, two.above, two.below, one.above, one.below),
      );
      parts =
          rw
            (utf8_4 b three.byte two.byte one.byte h₁ h₂ (omega (arith, three.above))
              (omega (arith, three.below)) two.above two.below one.above one.below
              (omega (arith, three.above)))
            (ap (λ t. b ∷ t)
              (three.parts
                ∙ ap (λ t. three.byte ∷ t) (two.parts ∙ ap (λ t. two.byte ∷ t) one.parts)));
      accepted = one.accepted;
      bytes = one.bytes;
      shorter = omega (arith, ap length one.parts, ap length two.parts, ap length three.parts);
    }

-- Which state the first byte leads to.
data Lead (b : ℕ) (r : List ℕ) : Type 0 where
  one : b < 0x80 → Accepts 0 r → Lead b r
  two : 0xC2 ≤ b → b < 0xE0 → Accepts 24 r → Lead b r
  three_low : b ≡ 0xE0 → Accepts 48 r → Lead b r
  three_high : b ≡ 0xED → Accepts 60 r → Lead b r
  three : 0xE0 < b → b < 0xF0 → (b < 0xED) ⊎ (0xED < b) → Accepts 36 r → Lead b r
  four_low : b ≡ 0xF0 → Accepts 72 r → Lead b r
  four : 0xF0 < b → b < 0xF4 → Accepts 84 r → Lead b r
  four_high : b ≡ 0xF4 → Accepts 96 r → Lead b r

-- The byte's range and the state that the loop goes on in.
module _ (b : ℕ) (r : List ℕ) (v : b < 256) (a : Accepts 0 (b ∷ r)) where
  goes_on : (t : ℕ) → lead b ≡ t → Accepts t r
  unfolding utf8_loop
  goes_on t e = ground (arith, next-lead b v)

  leads : Lead b r
  leads = elim (Bool-cases (ltb b 0x80)) [
    | inl h₁ ↦ one (ground arith) (goes_on 0 (ground arith))
    | inr h₁ ↦ elim (Bool-cases (ltb b 0xC2)) [
      | inl h₂ ↦ absurd (refused (ground arith))
      | inr h₂ ↦ elim (Bool-cases (ltb b 0xE0)) [
        | inl h₃ ↦ two (ground arith) (ground arith) (goes_on 24 (ground arith))
        | inr h₃ ↦ elim (Bool-cases (b == 0xE0)) [
          | inl h₄ ↦ three_low (ground arith) (goes_on 48 (ground arith))
          | inr h₄ ↦ elim (Bool-cases (b == 0xED)) [
            | inl h₅ ↦ three_high (ground arith) (goes_on 60 (ground arith))
            | inr h₅ ↦ elim (Bool-cases (ltb b 0xF0)) [
              | inl h₆ ↦
                  three (ground arith) (ground arith) (ground arith) (goes_on 36 (ground arith))
              | inr h₆ ↦ elim (Bool-cases (b == 0xF0)) [
                | inl h₇ ↦ four_low (ground arith) (goes_on 72 (ground arith))
                | inr h₇ ↦ elim (Bool-cases (ltb b 0xF4)) [
                  | inl h₈ ↦ four (ground arith) (ground arith) (goes_on 84 (ground arith))
                  | inr h₈ ↦ elim (Bool-cases (b == 0xF4)) [
                    | inl h₉ ↦ four_high (ground arith) (goes_on 96 (ground arith))
                    | inr h₉ ↦ absurd (refused (ground arith))
                  ]
                ]
              ]
            ]
          ]
        ]
      ]
    ]
  ]
    where
      refused : lead b ≡ 12 → ⊥
      refused e = unfold utf8_loop in ground (arith, next-lead b v)

first : (b : ℕ) (r : List ℕ) → b < 256 → IsBytes r → Lead b r → First (b ∷ r)
first b r h v (one h₁ a) = First-1 b r h₁ v a
first b r h v (two h₁ h₂ a) = First-2 b r h₁ h₂ v a
first b r h v (three_low e a) =
    First-3 b 0xA0 0xBF r (omega arith) (omega arith) (omega arith) (omega arith) (omega arith)
      (inl (omega arith)) (onward 48 0xA0 0xBF 24 r (omega arith) Goes-48 v a)
first b r h v (three_high e a) =
    First-3 b 0x80 0x9F r (omega arith) (omega arith) (omega arith) (omega arith) (omega arith)
      (inl (omega arith)) (onward 60 0x80 0x9F 24 r (omega arith) Goes-60 v a)
first b r h v (three h₁ h₂ h₃ a) =
    First-3 b 0x80 0xBF r (omega arith) (omega arith) (omega arith) (omega arith) (omega arith)
      (omega arith) (onward 36 0x80 0xBF 24 r (omega arith) Goes-36 v a)
first b r h v (four_low e a) =
    First-4 b 0x90 0xBF r (omega arith) (omega arith) (omega arith) (omega arith) (omega arith)
      (omega arith) (onward 72 0x90 0xBF 36 r (omega arith) Goes-72 v a)
first b r h v (four h₁ h₂ a) =
    First-4 b 0x80 0xBF r (omega arith) (omega arith) (omega arith) (omega arith) (omega arith)
      (omega arith) (onward 84 0x80 0xBF 36 r (omega arith) Goes-84 v a)
first b r h v (four_high e a) =
    First-4 b 0x80 0x8F r (omega arith) (omega arith) (omega arith) (omega arith) (omega arith)
      (omega arith) (onward 96 0x80 0x8F 36 r (omega arith) Goes-96 v a)

-- The bytes are the text of a list of scalar values.
abbrev pub IsText : List ℕ → Type 0
IsText bs = (cs : List ℕ) × All IsScalar cs × (utf8_text cs ≡ bs)

accepted-IsText : (n : ℕ) (bs : List ℕ) → length bs ≤ n → IsBytes bs → Accepts 0 bs → IsText bs
unfolding utf8_text
accepted-IsText n [] h v a = ([], tt, refl)
accepted-IsText zero (b ∷ bs) h v a = absurd (omega arith)
accepted-IsText (suc n) (b ∷ bs) h v a =
    let f = first b bs v.0 v.1 (leads b bs v.0 a) in
    let (cs, scalars, e) = accepted-IsText n f.rest (omega (arith, f.shorter)) f.bytes f.accepted in
    (f.scalar ∷ cs, (f.is_scalar, scalars), ap (λ t. utf8 f.scalar ++ t) e ∙ sym f.parts)

-- The loop passes over the bytes of a sequence by the states that the table gives.
module _ (bs : List ℕ) where
  pass_1 : (x : ℕ) → next 0 x ≡ 0 → utf8_loop 0 (x ∷ bs) ≡ utf8_loop 0 bs
  unfolding utf8_loop
  pass_1 x h = ground arith

  pass_2 : (x y : ℕ) → next 0 x ≡ 24 → next 24 y ≡ 0 → utf8_loop 0 (x ∷ y ∷ bs) ≡ utf8_loop 0 bs
  unfolding utf8_loop
  pass_2 x y h₁ h₂ = ground arith

  pass_3 :
      (x y z s : ℕ)
      → next 0 x ≡ s
      → s ≢ 12
      → next s y ≡ 24
      → next 24 z ≡ 0
      → utf8_loop 0 (x ∷ y ∷ z ∷ bs) ≡ utf8_loop 0 bs
  unfolding utf8_loop
  pass_3 x y z s h₁ h₂ h₃ h₄ = ground arith

  pass_4 :
      (x y z w s : ℕ)
      → next 0 x ≡ s
      → s ≢ 12
      → next s y ≡ 36
      → next 36 z ≡ 24
      → next 24 w ≡ 0
      → utf8_loop 0 (x ∷ y ∷ z ∷ w ∷ bs) ≡ utf8_loop 0 bs
  unfolding utf8_loop
  pass_4 x y z w s h₁ h₂ h₃ h₄ h₅ = ground arith

abbrev digit : ℕ → ℕ
digit d = 0x80 + d % 64

next_24 : (d : ℕ) → next 24 (digit d) ≡ 0
next_24 d = ground (arith, Goes-24 (digit d))

next_36 : (d : ℕ) → next 36 (digit d) ≡ 24
next_36 d = ground (arith, Goes-36 (digit d))

-- The first byte of three and the state behind it, with the second byte.
module _ (c : ℕ) (h : 0x800 ≤ c) (k : c < 0x10000) (scalar : IsScalar c) where
  abbrev state_3 : ℕ
  state_3 = lead (0xE0 + c / 4096)

  enters_3 : next state_3 (digit (c / 64)) ≡ 24
  enters_3 =
      ground (arith, Goes-36 (digit (c / 64)), Goes-48 (digit (c / 64)), Goes-60 (digit (c / 64)))

module _ (c : ℕ) (h : 0x10000 ≤ c) (k : c < 0x110000) where
  abbrev state_4 : ℕ
  state_4 = lead (0xF0 + c / 262144)

  enters_4 : next state_4 (digit (c / 4096)) ≡ 36
  enters_4 =
      ground
        (arith, Goes-72 (digit (c / 4096)), Goes-84 (digit (c / 4096)), Goes-96 (digit (c / 4096)))

utf8_loop-utf8 : (c : ℕ) (bs : List ℕ) → IsScalar c → utf8_loop 0 (utf8 c ++ bs) ≡ utf8_loop 0 bs
unfolding utf8
utf8_loop-utf8 c bs h = elim (Bool-cases (ltb c 0x80)) [
  | inl h₁ ↦ rw h₁ (pass_1 bs c (ground (arith, next-lead c)))
  | inr h₁ ↦ elim (Bool-cases (ltb c 0x800)) [
    | inl h₂ ↦ rw (h₁, h₂) (pass_2 bs _ _ (ground (arith, next-lead (0xC0 + c / 64))) (next_24 c))
    | inr h₂ ↦ elim (Bool-cases (ltb c 0x10000)) [
      | inl h₃ ↦
          rw (h₁, h₂, h₃)
            (pass_3 bs _ _ _ _ (next-lead (0xE0 + c / 4096) (ground arith)) (ground arith)
              (enters_3 c (ground arith) (ground arith) h) (next_24 c))
      | inr h₃ ↦
          rw (h₁, h₂, h₃)
            (pass_4 bs _ _ _ _ _ (next-lead (0xF0 + c / 262144) (ground arith)) (ground arith)
              (enters_4 c (ground arith) (ground arith)) (next_36 (c / 64)) (next_24 c))
    ]
  ]
]

utf8_loop-utf8_text : (cs : List ℕ) → All IsScalar cs → utf8_loop 0 (utf8_text cs) ≡ rc_ok
unfolding utf8_text utf8_loop
utf8_loop-utf8_text [] h = refl
utf8_loop-utf8_text (c ∷ cs) h = utf8_loop-utf8 c (utf8_text cs) h.0 ∙ utf8_loop-utf8_text cs h.1

utf8_loop-rc : (s : ℕ) (bs : List ℕ) → (utf8_loop s bs ≡ rc_ok) ⊎ (utf8_loop s bs ≡ rc_error)
unfolding utf8_loop
utf8_loop-rc s [] = ground arith
utf8_loop-rc s (b ∷ bs) = ground (arith, utf8_loop-rc (next s b) bs)

-- The two return codes of `lws_valid_utf8`.
pub valid_utf8-rc : (bs : List ℕ) → (valid_utf8 bs ≡ rc_ok) ⊎ (valid_utf8 bs ≡ rc_error)
unfolding valid_utf8
valid_utf8-rc bs = utf8_loop-rc 0 bs

valid_utf8_iff : (bs : List ℕ) → IsBytes bs → (valid_utf8 bs ≡ rc_ok) ↔ IsText bs
unfolding valid_utf8
valid_utf8_iff bs v = (
  accepted-IsText (length bs) bs (omega arith) v,
  λ t. subst (λ u. utf8_loop 0 u ≡ rc_ok) t.2 (utf8_loop-utf8_text t.0 t.1),
)

-- On bytes `lws_valid_utf8` returns 0 exactly when they are the UTF-8 text of a list of Unicode scalar
-- values, and -1 exactly when they are not.
pub valid_utf8_lem :
    (bs : List ℕ)
    → IsBytes bs
    → ((valid_utf8 bs ≡ rc_ok) ↔ IsText bs) × ((valid_utf8 bs ≡ rc_error) ↔ (¬ IsText bs))
valid_utf8_lem bs v =
    let t = valid_utf8_iff bs v in
    (
      t,
      (
        (λ e text. distinct (sym (t.1 text) ∙ e)),
        λ no_text. elim (valid_utf8-rc bs) [ inl e ↦ absurd (no_text (t.0 e)) | inr e ↦ e ],
      ),
    )
  where
    distinct : rc_ok ≡ rc_error → ⊥
    distinct e = cc
