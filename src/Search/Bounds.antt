-- ===== src/Search/Bounds.antt =====
-- What the loop finds in a sorted table: the first place at which the test fails.
use lambda_lws.Prelude.{
  ℕ, zero, suc, ◌+◌, ◌/◌, ◌≤◌, ◌<◌, ◌≡◌, refl, ◌∙◌, sym, inl, inr, Bool, true, false, ◌&&◌,
  Bool-cases, List, [], ◌∷◌, ltb, leb, get_or, length, ℤ, pos, negsuc, arith,
}
use lambda_lws.Search.{before, search_loop}

-- One place behind `upper`.
abbrev pub end : ℤ → ℕ
end (pos u) = suc u
end (negsuc u) = 0

-- The first place of `n` at which the test fails, or `n`.
pub record IsFirst (below : ℕ → Bool) (n r : ℕ) : Type 0 where
  pub in_range : r ≤ n
  pub passed : (i : ℕ) → i < r → below i ≡ true
  pub failed : (i : ℕ) → r ≤ i → i < n → below i ≡ false

module _ (below : ℕ → Bool) (n : ℕ)
    (sorted : (i j : ℕ) → i ≤ j → j < n → below j ≡ true → below i ≡ true) where
  end-before : (m : ℕ) → end (before m) ≡ m
  unfolding before
  end-before zero = refl
  end-before (suc m) = refl

  down : (i j : ℕ) → i ≤ j → j < n → below i ≡ false → below j ≡ false
  down i j h k e = elim (Bool-cases (below j)) [
    | inl t ↦ absurd (clash (sym e ∙ sorted i j h k t))
    | inr f ↦ f
  ]
    where
      clash : false ≡ true → ⊥
      clash q = cc

  -- The loop's invariant: all before `lower` pass, all behind `upper` fail. With more fuel than
  -- places between the two, it ends where they meet.
  pub search_loop-IsFirst :
      (fuel lower : ℕ) (upper : ℤ)
      → lower ≤ end upper
      → end upper ≤ n
      → end upper < lower + fuel
      → ((i : ℕ) → i < lower → below i ≡ true)
      → ((i : ℕ) → end upper ≤ i → i < n → below i ≡ false)
      → IsFirst below n (search_loop below fuel lower upper)
  unfolding search_loop
  search_loop-IsFirst zero lower upper h k f lo hi = absurd (omega arith)
  search_loop-IsFirst (suc fuel) lower (negsuc u) h k f lo hi = record {
    in_range = omega arith;
    passed = lo;
    failed = λ i p q. hi i (omega arith) q;
  }
  search_loop-IsFirst (suc fuel) lower (pos u) h k f lo hi = elim (Bool-cases (ltb u lower)) [
    | inl stop ↦
        rw (stop, search_loop)
          (record { in_range = omega arith; passed = lo; failed = λ i p q. hi i (ground arith) q })
    | inr go ↦ elim (Bool-cases (below mid)) [
      | inl small ↦
          rw (go, small, search_loop)
            (search_loop-IsFirst fuel (mid + 1) (pos u) (ground arith) k (ground arith)
              (λ i p. sorted i mid (omega arith) (ground arith) small) hi)
      | inr large ↦
          rw (go, large, search_loop)
            (search_loop-IsFirst fuel lower (before mid) (ground (arith, end-before mid))
              (ground (arith, end-before mid)) (ground (arith, end-before mid)) lo
              (λ i p q. down mid i (omega (arith, end-before mid)) q large))
    ]
  ]
    where
      mid : ℕ
      mid = (lower + u) / 2

  -- The loop as both functions start it.
  pub search-IsFirst :
      (fuel : ℕ) → n ≤ fuel → IsFirst below n (search_loop below (suc fuel) 0 (before n))
  search-IsFirst fuel h =
      search_loop-IsFirst (suc fuel) 0 (before n) (omega arith) (omega (arith, end-before n))
        (omega (arith, end-before n)) (λ i p. absurd (omega arith))
        (λ i p q. absurd (omega (arith, end-before n)))

-- A table whose neighbours are in order is in order.
unfoldable pub is_sorted : List ℕ → Bool
is_sorted [] = true
is_sorted (x ∷ []) = true
is_sorted (x ∷ y ∷ ys) = leb x y && is_sorted (y ∷ ys)

pub get_or_mono :
    (xs : List ℕ) (i j : ℕ)
    → is_sorted xs ≡ true
    → i ≤ j
    → j < length xs
    → get_or xs i 0 ≤ get_or xs j 0
unfolding is_sorted
get_or_mono [] i j s h k = absurd (omega arith)
get_or_mono (x ∷ xs) zero zero s h k = omega arith
get_or_mono (x ∷ []) i (suc j) s h k = absurd (omega arith)
get_or_mono (x ∷ y ∷ ys) zero (suc j) s h k =
    ground (arith, get_or_mono (y ∷ ys) zero j (ground arith) (omega arith) (omega arith))
get_or_mono (x ∷ y ∷ ys) (suc i) (suc j) s h k =
    get_or_mono (y ∷ ys) i j (ground arith) (omega arith) (omega arith)
get_or_mono (x ∷ xs) (suc i) zero s h k = absurd (omega arith)
