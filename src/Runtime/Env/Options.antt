-- ===== src/Runtime/Env/Options.antt =====
-- The option that `lws_getenv_enum` (src/lws_runtime.c, lines 129 to 146) finds.
use lambda_lws.Prelude.{
  ℕ, ◌+◌, ◌<◌, ◌≡◌, ◌≢◌, refl, sym, ap, ap₂, ◌∙◌, inl, inr, Bool, true, false, Bool-cases, ◌&&◌,
  Option, none, some, List, [], ◌∷◌, ◌++◌, ◌==◌, if◌then◌else◌, length, eqb_list, All, arith,
}
use lambda_lws.Runtime.Env.{is_unset, text_of, same_option, enum_loop, getenv_enum}

-- Equal texts pass the comparison, and no others do.
eqb_list_refl : (s : List ℕ) → eqb_list s s ≡ true
eqb_list_refl [] = refl
eqb_list_refl (c ∷ cs) = rw (eqb_list_refl cs) (ground arith)

eqb_list_eq : (s t : List ℕ) → eqb_list s t ≡ true → s ≡ t
eqb_list_eq [] [] h = refl
eqb_list_eq [] (d ∷ ds) h = cc
eqb_list_eq (c ∷ cs) [] h = cc
eqb_list_eq (c ∷ cs) (d ∷ ds) h = elim (Bool-cases (c == d)) [
  | inr e ↦ absurd (ground (arith, h, e))
  | inl e ↦
      let same : c ≡ d = ground (arith, e) in
      let rest : eqb_list cs ds ≡ true = sym (ap (λ (b : Bool). b && eqb_list cs ds) e) ∙ h in
      ap₂ (λ (x : ℕ) (xs : List ℕ). x ∷ xs) same (eqb_list_eq cs ds rest)
]

same_option_eq : (o s : List ℕ) → same_option o s ≡ true → o ≡ s
unfolding same_option
same_option_eq o s h = eqb_list_eq o s (ground (arith, h))

same_option_ne : (o s : List ℕ) → same_option o s ≡ false → o ≢ s
unfolding same_option
same_option_ne o s h e =
    let same : same_option s s ≡ true = rw (eqb_list_refl s) (ground arith) in
    let other : same_option s s ≡ false = sym (ap (λ (t : List ℕ). same_option t s) e) ∙ h in
    let clash : true ≡ false = sym same ∙ other in cc

-- The index of the first option that is the text, counted from `i`; none is only without such an option.
pub IsIndex : List ℕ → List (List ℕ) → ℕ → Option ℕ → Type 0
IsIndex s os i none = All (λ o. o ≢ s) os
IsIndex s os i (some k) =
    (before : List (List ℕ)) × ((behind : List (List ℕ)) × (os ≡ before ++ s ∷ behind)
      × (k ≡ i + length before)
      × All (λ o. o ≢ s) before)

-- An option in front that is not the text.
IsIndex-suc :
    (s o : List ℕ) (os : List (List ℕ)) (i : ℕ) (r : Option ℕ)
    → o ≢ s
    → IsIndex s os (i + 1) r
    → IsIndex s (o ∷ os) i r
unfolding IsIndex
IsIndex-suc s o os i none ne h = (ne, h)
IsIndex-suc s o os i (some k) ne (before, (behind, e, p, others)) =
    (o ∷ before, (behind, ap (λ (xs : List (List ℕ)). o ∷ xs) e, omega (arith, p), (ne, others)))

enum_loop_lem :
    (s : List ℕ) (os : List (List ℕ)) (i : ℕ)
    → All (λ o. 0 < length o) os
    → IsIndex s os i (enum_loop s (os ++ [] ∷ []) i)
unfolding enum_loop IsIndex
enum_loop_lem s [] i h = tt
enum_loop_lem s (o ∷ os) i (p, ps) =
    let ih = enum_loop_lem s os (i + 1) ps in
    let e : (length o == 0) ≡ false = ground arith in
    elim (Bool-cases (same_option o s)) [
      | inl f ↦
          rw (e, f) ([], (os, ap (λ (x : List ℕ). x ∷ os) (same_option_eq o s f), ground arith, tt))
      | inr f ↦
          rw (e, f)
            (IsIndex-suc s o os i (enum_loop s (os ++ [] ∷ []) (i + 1)) (same_option_ne o s f) ih)
    ]

-- lws_getenv_enum gives the index of the first option that the variable's text is, or where the variable
-- is not set the default; none if there is no such option.
pub getenv_enum_lem :
    (v : Option (List ℕ)) (options : List (List ℕ)) (dfl : List ℕ)
    → All (λ o. 0 < length o) options
    → IsIndex
        (if is_unset v then dfl else text_of v)
        options
        0
        (getenv_enum v (options ++ [] ∷ []) dfl)
unfolding getenv_enum
getenv_enum_lem v options dfl h = enum_loop_lem (if is_unset v then dfl else text_of v) options 0 h
