-- ===== src/Runtime/Env/Read.antt =====
-- What the readers of src/lws_runtime.c (lines 69 to 146) read: sizes with a unit, and options.
use lambda_lws.Prelude.{
  ℕ, ◌+◌, ◌-◌, ◌*◌, ◌^◌, ◌≤◌, ◌<◌, ◌≡◌, refl, sym, ap, ◌∙◌, ◌⊎◌, inl, inr, true, false, Bool-cases,
  Option, none, some, List, [], ◌∷◌, ◌++◌, leb, ◌==◌, if◌then◌else◌, if_off, length, drop,
  drop-append, All, codes, eqb_list, arith,
}
use lambda_lws.Codec.Base64.{size_max}
use lambda_lws.Runtime.Env.{is_unset, text_of, Parsed, multiplier, scaled, getenv_size}

abbrev pub IsDigit : ℕ → Type 0
IsDigit c = (b'0' ≤ c) × (c ≤ b'9')

-- The number that digits stand for, behind a number.
unfoldable pub decimal_from : ℕ → List ℕ → ℕ
decimal_from n [] = n
decimal_from n (c ∷ cs) = decimal_from (n * 10 + (c - b'0')) cs

abbrev pub decimal : List ℕ → ℕ
decimal ds = decimal_from 0 ds

-- What the C library documents of `strtoul` for digits and what follows them: it takes the digits, and
-- gives their number, or sets errno if that is above ULONG_MAX.
pub record IsStrtoul (strtoul : List ℕ → Parsed ℕ) : Type 0 where
  pub takes :
      (d : ℕ) (ds suffix : List ℕ)
      → All IsDigit (d ∷ ds)
      → All (λ c. ¬ IsDigit c) suffix
      → (strtoul ((d ∷ ds) ++ suffix)).taken ≡ length (d ∷ ds)
  pub reads :
      (d : ℕ) (ds suffix : List ℕ)
      → All IsDigit (d ∷ ds)
      → All (λ c. ¬ IsDigit c) suffix
      → decimal (d ∷ ds) ≤ size_max
      → ((strtoul ((d ∷ ds) ++ suffix)).errno ≡ false)
        × ((strtoul ((d ∷ ds) ++ suffix)).number ≡ decimal (d ∷ ds))
  pub overflows :
      (d : ℕ) (ds suffix : List ℕ)
      → All IsDigit (d ∷ ds)
      → All (λ c. ¬ IsDigit c) suffix
      → size_max < decimal (d ∷ ds)
      → (strtoul ((d ∷ ds) ++ suffix)).errno ≡ true

-- A number of units, if a `size_t` holds the product.
unfoldable pub sized : ℕ → Option ℕ → Option ℕ
sized n none = none
sized n (some unit) = if leb (n * unit) size_max then some (n * unit) else none

-- The unit that a suffix names: 1 for none, 2 ^ 10 for `k` and 2 ^ 20 for `m`.
unfoldable pub unit_of : List ℕ → Option ℕ
unit_of s =
    if eqb_list s (codes "")
    then some 1
    else if eqb_list s (codes "k")
    then some (2 ^ 10)
    else if eqb_list s (codes "m")
    then some (2 ^ 20)
    else none

multiplier-unit_of : (s : List ℕ) → multiplier s ≡ unit_of s
unfolding multiplier unit_of
multiplier-unit_of [] = refl
multiplier-unit_of (c ∷ []) = ground arith
multiplier-unit_of (c ∷ d ∷ cs) = ground arith

-- A unit is one of three.
multiplier_cases :
    (s : List ℕ)
    → (multiplier s ≡ none)
      ⊎ ((multiplier s ≡ some 1) ⊎ ((multiplier s ≡ some 1024) ⊎ (multiplier s ≡ some 1048576)))
unfolding multiplier
multiplier_cases [] = inr (inl refl)
multiplier_cases (c ∷ []) = elim (Bool-cases (c == b'k')) [
  | inl e ↦ inr (inr (inl (rw e refl)))
  | inr e ↦ elim (Bool-cases (c == b'm')) [
    | inl f ↦ inr (inr (inr (rw (e, f) refl)))
    | inr f ↦ inl (rw (e, f) refl)
  ]
]
multiplier_cases (c ∷ d ∷ cs) = inl refl

scaled-sized : (n : ℕ) (s : List ℕ) → scaled n (multiplier s) ≡ sized n (multiplier s)
unfolding scaled sized
scaled-sized n s = elim (multiplier_cases s) [
  | inl e ↦ rw e refl
  | inr (inl e) ↦ rw e (ground arith)
  | inr (inr (inl e)) ↦ rw e (ground arith)
  | inr (inr (inr e)) ↦ rw e (ground arith)
]

-- A number that is above SIZE_MAX is too large with every unit.
sized_over : (n : ℕ) (s : List ℕ) → size_max < n → sized n (multiplier s) ≡ none
unfolding sized
sized_over n s h = elim (multiplier_cases s) [
  | inl e ↦ rw e refl
  | inr (inl e) ↦ rw e (ground arith)
  | inr (inr (inl e)) ↦ rw e (ground arith)
  | inr (inr (inr e)) ↦ rw e (ground arith)
]

getenv_size-sized :
    (strtoul : List ℕ → Parsed ℕ) (d : ℕ) (ds suffix : List ℕ)
    → IsStrtoul strtoul
    → All IsDigit (d ∷ ds)
    → All (λ c. ¬ IsDigit c) suffix
    → getenv_size strtoul (some ((d ∷ ds) ++ suffix)) ≡ sized (decimal (d ∷ ds)) (multiplier suffix)
unfolding getenv_size is_unset text_of
getenv_size-sized strtoul d ds suffix c h g =
    let s = (d ∷ ds) ++ suffix in
    let t = c.takes d ds suffix h g in
    let rest : drop (length (d ∷ ds)) s ≡ suffix =
      drop-append (length (d ∷ ds)) (d ∷ ds) suffix refl in
    elim (Bool-cases (leb (decimal (d ∷ ds)) size_max)) [
      | inl small ↦
          let (e, n) = c.reads d ds suffix h g (ground arith) in
          rw (e, t, n, rest)
            (if_off (length (d ∷ ds) == 0) none (scaled (decimal (d ∷ ds)) (multiplier suffix))
                (ground arith)
              ∙ scaled-sized (decimal (d ∷ ds)) suffix)
      | inr large ↦
          let e = c.overflows d ds suffix h g (ground arith) in
          rw e (sym (sized_over (decimal (d ∷ ds)) suffix (ground arith)))
    ]

-- With an strtoul that does what the C library documents, lws_getenv_size reads decimal digits and what
-- follows them (not starting or going on with digits) as the number times the unit, which is 1 for nothing,
-- 1024 for k and 1024 * 1024 for m; it fails exactly if what follows is no such unit or the product is
-- above SIZE_MAX, so that the product does not wrap.
pub getenv_size_lem :
    (strtoul : List ℕ → Parsed ℕ) (d : ℕ) (ds suffix : List ℕ)
    → IsStrtoul strtoul
    → All IsDigit (d ∷ ds)
    → All (λ c. ¬ IsDigit c) suffix
    → getenv_size strtoul (some ((d ∷ ds) ++ suffix)) ≡ sized (decimal (d ∷ ds)) (unit_of suffix)
getenv_size_lem strtoul d ds suffix c h g =
    getenv_size-sized strtoul d ds suffix c h g
    ∙ ap (sized (decimal (d ∷ ds))) (multiplier-unit_of suffix)
