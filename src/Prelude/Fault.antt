-- ===== src/Prelude/Fault.antt =====
-- Runs over a byte buffer: `none` is an access outside the buffer.
use Prim.Native.Nat.{ℕ, zero, suc, ◌+◌}
use native.Mathlib.Nat.{zero-add, suc-add}
use mathlib.Core.Path.{◌≡◌, refl}
use mathlib.Core.Option
use mathlib.Core.Option.{Option, none, some}
use mathlib.Core.List.{List, [], ◌∷◌, ◌++◌}
use lambda_lws.Prelude.Lists.{length}

abbrev pub Run {ℓ} : Type ℓ → Type ℓ
Run A = Option A

infixl 5 ◌>>=◌
abbrev pub ◌>>=◌ {ℓ κ} : {A : Type ℓ} {B : Type κ} → Run A → (A → Run B) → Run B
none >>= f = none
some a >>= f = f a

-- The run ends in a value that satisfies `P`.
abbrev pub Returns {ℓ κ} : {A : Type ℓ} → Run A → (A → Type κ) → Type (ℓ ⊔ κ)
Returns {A} run P = (result : A) × (run ≡ some result) × P result

-- p[i]
unfoldable pub load : List ℕ → ℕ → Run ℕ
load [] i = none
load (x ∷ xs) zero = some x
load (x ∷ xs) (suc i) = load xs i

-- p[i] = v
unfoldable pub store : List ℕ → ℕ → ℕ → Run (List ℕ)
store [] i v = none
store (x ∷ xs) zero v = some (v ∷ xs)
store (x ∷ xs) (suc i) v = Option.map (λ ys. x ∷ ys) (store xs i v)

-- p[--i], with the new index. At 0 the index wraps to SIZE_MAX, which no buffer holds.
unfoldable pub load_back : List ℕ → ℕ → Run (ℕ × ℕ)
unfolding load
load_back p zero = none
load_back p (suc i) = Option.map (λ v. (v, i)) (load p i)

-- p[--i] = v, with the new index.
unfoldable pub store_back : List ℕ → ℕ → ℕ → Run (List ℕ × ℕ)
unfolding store
store_back p zero v = none
store_back p (suc i) v = Option.map (λ q. (q, i)) (store p i v)

load-append : (xs ys : List ℕ) (j : ℕ) → load (xs ++ ys) (length xs + j) ≡ load ys j
unfolding load
load-append [] ys j = rw zero-add
load-append (x ∷ xs) ys j = rw suc-add (load-append xs ys j)

store-append :
    (xs ys : List ℕ) (j v : ℕ)
    → store (xs ++ ys) (length xs + j) v ≡ Option.map (λ q. xs ++ q) (store ys j v)
unfolding store
store-append [] ys j v = rw zero-add (keep (store ys j v))
  where
    keep : (o : Option (List ℕ)) → o ≡ Option.map (λ q. q) o
    keep none = refl
    keep (some q) = refl
store-append (x ∷ xs) ys j v = rw (suc-add, store-append xs ys j v) (twice (store ys j v))
  where
    twice :
        (o : Option (List ℕ))
        → Option.map (λ q. x ∷ q) (Option.map (λ q. xs ++ q) o) ≡ Option.map (λ q. x ∷ (xs ++ q)) o
    twice none = refl
    twice (some q) = refl

-- An access `j` places behind `xs`, by an index that is known by an equation.
pub load_at :
    (xs ys : List ℕ) (j k : ℕ) {v : ℕ}
    → k ≡ length xs + j
    → load ys j ≡ some v
    → load (xs ++ ys) k ≡ some v
load_at xs ys j k e h = rw (e, load-append xs ys j) h

pub store_at :
    (xs ys : List ℕ) (j k v : ℕ) {zs : List ℕ}
    → k ≡ length xs + j
    → store ys j v ≡ some zs
    → store (xs ++ ys) k v ≡ some (xs ++ zs)
store_at xs ys j k v e h = rw (e, store-append xs ys j v, h)

pub load_back_at :
    (xs ys : List ℕ) (j k : ℕ) {v : ℕ}
    → k ≡ length xs + j
    → load ys j ≡ some v
    → load_back (xs ++ ys) (suc k) ≡ some (v, k)
unfolding load_back
load_back_at xs ys j k e h = rw (load_at xs ys j k e h)

pub store_back_at :
    (xs ys : List ℕ) (j k v : ℕ) {zs : List ℕ}
    → k ≡ length xs + j
    → store ys j v ≡ some zs
    → store_back (xs ++ ys) (suc k) v ≡ some (xs ++ zs, k)
unfolding store_back
store_back_at xs ys j k v e h = rw (store_at xs ys j k v e h)
