-- ===== src/Prelude/Lists.antt =====
-- Lists measured and indexed by native numbers, under the library's names.
use Prim.Native.Nat.{ℕ, zero, suc, ◌+◌, ◌-◌, ◌≤◌, ◌<◌, min}
use mathlib.Core.Path.{◌≡◌, refl, sym, ap, ◌∙◌}
use mathlib.Core.Logic.{◌≢◌}
use mathlib.Core.Bool.{Bool, true, false, ◌&&◌}
use lambda_lws.Prelude.Tests.{◌==◌}
use mathlib.Core.List.{List, [], ◌∷◌, ◌++◌, map}
use mathlib.Core.Option.{Option, none, some}
use native.Mathlib.Omega.{arith}
use Prim.Native.Char.{code}
use Prim.Native.String.{String}

module _ {ℓ} {A : Type ℓ} where
  abbrev pub length : List A → ℕ
  length [] = 0
  length (x ∷ xs) = suc (length xs)

  abbrev pub get_elem? : List A → ℕ → Option A
  get_elem? [] i = none
  get_elem? (x ∷ xs) zero = some x
  get_elem? (x ∷ xs) (suc i) = get_elem? xs i

  -- A write out of bounds changes nothing.
  abbrev pub set : List A → ℕ → A → List A
  set [] i v = []
  set (x ∷ xs) zero v = v ∷ xs
  set (x ∷ xs) (suc i) v = x ∷ set xs i v

  pub length-append : (xs ys : List A) → length (xs ++ ys) ≡ length xs + length ys
  length-append [] ys = omega arith
  length-append (x ∷ xs) ys = omega (arith, length-append xs ys)

module _ {ℓ} {A : Type ℓ} where
  pub length-set : (xs : List A) (i : ℕ) (v : A) → length (set xs i v) ≡ length xs
  length-set [] i v = refl
  length-set (x ∷ xs) zero v = refl
  length-set (x ∷ xs) (suc i) v = ap suc (length-set xs i v)

  pub get_elem?-set_self :
      (xs : List A) (i : ℕ) (v : A) → i < length xs → get_elem? (set xs i v) i ≡ some v
  get_elem?-set_self [] i v h = elim h [ ]
  get_elem?-set_self (x ∷ xs) zero v h = refl
  get_elem?-set_self (x ∷ xs) (suc i) v h = get_elem?-set_self xs i v (omega arith)

  pub get_elem?-set_ne :
      (xs : List A) {i j : ℕ} (v : A) → i ≢ j → get_elem? (set xs i v) j ≡ get_elem? xs j
  get_elem?-set_ne [] v h = refl
  get_elem?-set_ne (x ∷ xs) {i = zero} {j = zero} v h = absurd (h refl)
  get_elem?-set_ne (x ∷ xs) {i = zero} {j = suc j} v h = refl
  get_elem?-set_ne (x ∷ xs) {i = suc i} {j = zero} v h = refl
  get_elem?-set_ne (x ∷ xs) {i = suc i} {j = suc j} v h = get_elem?-set_ne xs v (λ e. h (ap suc e))

module _ {ℓ} {A : Type ℓ} where
  abbrev pub get_or : List A → ℕ → A → A
  get_or [] i d = d
  get_or (x ∷ xs) zero d = x
  get_or (x ∷ xs) (suc i) d = get_or xs i d

  abbrev pub take : ℕ → List A → List A
  take zero xs = []
  take (suc n) [] = []
  take (suc n) (x ∷ xs) = x ∷ take n xs

  abbrev pub drop : ℕ → List A → List A
  drop zero xs = xs
  drop (suc n) [] = []
  drop (suc n) (x ∷ xs) = drop n xs

  abbrev pub replicate : ℕ → A → List A
  replicate zero a = []
  replicate (suc n) a = a ∷ replicate n a

  pub take-append-drop : (n : ℕ) (xs : List A) → take n xs ++ drop n xs ≡ xs
  take-append-drop zero xs = refl
  take-append-drop (suc n) [] = refl
  take-append-drop (suc n) (x ∷ xs) = rw (take-append-drop n xs)

  pub length-take : (n : ℕ) (xs : List A) → length (take n xs) ≡ min n (length xs)
  length-take zero xs = omega arith
  length-take (suc n) [] = omega arith
  length-take (suc n) (x ∷ xs) = omega (arith, length-take n xs)

  pub length-drop : (n : ℕ) (xs : List A) → length (drop n xs) ≡ length xs - n
  length-drop zero xs = omega arith
  length-drop (suc n) [] = omega arith
  length-drop (suc n) (x ∷ xs) = omega (arith, length-drop n xs)

  pub length-replicate : (n : ℕ) (a : A) → length (replicate n a) ≡ n
  length-replicate zero a = refl
  length-replicate (suc n) a = ap suc (length-replicate n a)

  pub length-map {κ} : {B : Type κ} (xs : List A) (f : A → B) → length (map f xs) ≡ length xs
  length-map [] f = refl
  length-map (x ∷ xs) f = ap suc (length-map xs f)

-- The code points of a text: its bytes, if it is ASCII.
abbrev pub codes : String → List ℕ
codes String.[] = []
codes (String.◌∷◌ c s) = code c ∷ codes s

-- A predicate at every element.
abbrev pub All {ℓ κ} : {A : Type ℓ} → (A → Type κ) → List A → Type κ
All P [] = Unit
All P (x ∷ xs) = P x × All P xs

-- Every element is a byte.
abbrev pub IsBytes : List ℕ → Type 0
IsBytes xs = All (λ x. x < 256) xs

pub All-append {ℓ κ} :
    {A : Type ℓ} (P : A → Type κ) (xs ys : List A) → All P (xs ++ ys) → All P xs × All P ys
All-append P [] ys h = (tt, h)
All-append P (x ∷ xs) ys h = ((h.0, (All-append P xs ys h.1).0), (All-append P xs ys h.1).1)

module _ {ℓ} {A : Type ℓ} where
  -- A list cut after `m` elements.
  pub cut :
      (m k : ℕ) (xs : List A)
      → length xs ≡ m + k
      → (ys : List A) × (zs : List A) × (xs ≡ ys ++ zs) × (length ys ≡ m) × (length zs ≡ k)
  cut zero k xs h = ([], xs, refl, refl, omega arith)
  cut (suc m) k [] h = absurd (omega arith)
  cut (suc m) k (x ∷ xs) h =
      let (ys, zs, e, l, r) = cut m k xs (omega arith) in
      (x ∷ ys, zs, ap (λ t. x ∷ t) e, ap suc l, r)

  pub drop-append : (n : ℕ) (xs ys : List A) → length xs ≡ n → drop n (xs ++ ys) ≡ ys
  drop-append zero [] ys h = refl
  drop-append zero (x ∷ xs) ys h = absurd (omega arith)
  drop-append (suc n) [] ys h = absurd (omega arith)
  drop-append (suc n) (x ∷ xs) ys h = drop-append n xs ys (omega arith)

  pub take-append : (n : ℕ) (xs ys : List A) → length xs ≡ n → take n (xs ++ ys) ≡ xs
  take-append zero [] ys h = refl
  take-append zero (x ∷ xs) ys h = absurd (omega arith)
  take-append (suc n) [] ys h = absurd (omega arith)
  take-append (suc n) (x ∷ xs) ys h = ap (λ t. x ∷ t) (take-append n xs ys (omega arith))

module _ {ℓ} {A : Type ℓ} where
  drop-nil : (n : ℕ) → drop {A = A} n [] ≡ []
  drop-nil zero = refl
  drop-nil (suc n) = refl

  pub take_eq : (xs : List A) {m n : ℕ} → m ≡ n → take m xs ≡ take n xs
  take_eq xs e = ap (λ k. take k xs) e

  pub drop_eq : (xs : List A) {m n : ℕ} → m ≡ n → drop m xs ≡ drop n xs
  drop_eq xs e = ap (λ k. drop k xs) e

  pub replicate_eq : (a : A) {m n : ℕ} → m ≡ n → replicate m a ≡ replicate n a
  replicate_eq a e = ap (λ k. replicate k a) e

  pub drop-drop : (m n : ℕ) (xs : List A) → drop n (drop m xs) ≡ drop (m + n) xs
  drop-drop zero n xs = drop_eq xs {m = n} {n = 0 + n} (omega arith)
  drop-drop (suc m) n [] = drop-nil n ∙ sym (drop-nil (suc m + n))
  drop-drop (suc m) n (x ∷ xs) =
      drop-drop m n xs ∙ drop_eq (x ∷ xs) {m = suc (m + n)} {n = suc m + n} (omega arith)

  pub drop_past : (n : ℕ) (xs : List A) → length xs ≤ n → drop n xs ≡ []
  drop_past zero [] h = refl
  drop_past zero (x ∷ xs) h = absurd (omega arith)
  drop_past (suc n) [] h = refl
  drop_past (suc n) (x ∷ xs) h = drop_past n xs (omega arith)

  pub take_past : (n : ℕ) (xs : List A) → length xs ≤ n → take n xs ≡ xs
  take_past zero [] h = refl
  take_past zero (x ∷ xs) h = absurd (omega arith)
  take_past (suc n) [] h = refl
  take_past (suc n) (x ∷ xs) h = ap (λ t. x ∷ t) (take_past n xs (omega arith))

  pub take-append_split :
      (n : ℕ) (xs ys : List A) → take n (xs ++ ys) ≡ take n xs ++ take (n - length xs) ys
  take-append_split n [] ys =
      take_eq ys {m = n} {n = n - 0} (omega arith)
      ∙ ap (λ t. t ++ take (n - 0) ys) (sym (take_past n [] (omega arith)))
  take-append_split zero (x ∷ xs) ys = take_eq ys {m = 0} {n = 0 - suc (length xs)} (omega arith)
  take-append_split (suc n) (x ∷ xs) ys =
      ap (λ t. x ∷ t)
        (take-append_split n xs ys
          ∙ ap (λ t. take n xs ++ t)
              (take_eq ys {m = n - length xs} {n = suc n - suc (length xs)} (omega arith)))

  pub drop-append_split :
      (n : ℕ) (xs ys : List A) → drop n (xs ++ ys) ≡ drop n xs ++ drop (n - length xs) ys
  drop-append_split n [] ys =
      drop_eq ys {m = n} {n = n - 0} (omega arith)
      ∙ ap (λ t. t ++ drop (n - 0) ys) (sym (drop-nil n))
  drop-append_split zero (x ∷ xs) ys =
      ap (λ t. x ∷ (xs ++ t)) (drop_eq ys {m = 0} {n = 0 - suc (length xs)} (omega arith))
  drop-append_split (suc n) (x ∷ xs) ys =
      drop-append_split n xs ys
      ∙ ap (λ t. drop n xs ++ t)
          (drop_eq ys {m = n - length xs} {n = suc n - suc (length xs)} (omega arith))

  pub drop-replicate : (n k : ℕ) (a : A) → drop n (replicate k a) ≡ replicate (k - n) a
  drop-replicate zero k a = replicate_eq a {m = k} {n = k - 0} (omega arith)
  drop-replicate (suc n) zero a = replicate_eq a {m = 0} {n = 0 - suc n} (omega arith)
  drop-replicate (suc n) (suc k) a =
      drop-replicate n k a ∙ replicate_eq a {m = k - n} {n = suc k - suc n} (omega arith)

  pub take-replicate : (n k : ℕ) (a : A) → take n (replicate k a) ≡ replicate (min n k) a
  take-replicate zero k a = replicate_eq a {m = 0} {n = min 0 k} (omega arith)
  take-replicate (suc n) zero a = replicate_eq a {m = 0} {n = min (suc n) 0} (omega arith)
  take-replicate (suc n) (suc k) a =
      ap (λ t. a ∷ t) (take-replicate n k a)
      ∙ replicate_eq a {m = suc (min n k)} {n = min (suc n) (suc k)} (omega arith)

-- Equality of two lists of bytes.
abbrev pub eqb_list : List ℕ → List ℕ → Bool
eqb_list [] [] = true
eqb_list [] (y ∷ ys) = false
eqb_list (x ∷ xs) [] = false
eqb_list (x ∷ xs) (y ∷ ys) = (x == y) && eqb_list xs ys

pub take-take {ℓ} : {A : Type ℓ} (k n : ℕ) (xs : List A) → k ≤ n → take k (take n xs) ≡ take k xs
take-take zero n xs h = refl
take-take (suc k) zero xs h = absurd (omega arith)
take-take (suc k) (suc n) [] h = refl
take-take (suc k) (suc n) (x ∷ xs) h = ap (λ t. x ∷ t) (take-take k n xs (omega arith))
