-- ===== src/Body/Growth.antt =====
-- The loop that raises a capacity: 128 rounds are enough for every `size_t`.
use lambda_lws.Prelude.{
  ℕ, zero, suc, ◌*◌, ◌^◌, ◌≤◌, ◌<◌, ◌≡◌, sym, ap, ◌∙◌, ◌⊎◌, inl, inr, Bool-cases, some, ltb, arith,
}
use native.Mathlib.Nat.{pow-succ', mul_assoc, mul-le-mul_right, le-mul_of_pos_right, one-le-pow}
use lambda_lws.Codec.Base64.{size_max}
use lambda_lws.Body.{grow_step, grow, rounds}

-- A capacity that the loop may end with.
pub record Suffices (required capacity : ℕ) : Type 0 where
  pub enough : required ≤ capacity
  pub in_range : capacity ≤ size_max

grow_step_range : (c r : ℕ) → c ≤ size_max → r ≤ size_max → grow_step c r ≤ size_max
unfolding grow_step
grow_step_range c r h k = ground arith

grow_step-up : (c r : ℕ) → 1 ≤ c → c < r → c < grow_step c r
unfolding grow_step
grow_step-up c r h k = ground arith

-- Two rounds double a capacity, unless it is then the required one.
grow_step_twice :
    (c r : ℕ)
    → 1 ≤ c
    → c < r
    → grow_step c r < r
    → r ≤ size_max
    → (c * 2 ≤ grow_step (grow_step c r) r) ⊎ (grow_step (grow_step c r) r ≡ r)
unfolding grow_step
grow_step_twice c r h k l u = ground arith

grow_done : (fuel c r : ℕ) → r ≤ c → grow fuel c r ≡ some c
unfolding grow
grow_done zero c r h = ground arith
grow_done (suc fuel) c r h = ground arith

grow-grow_step : (fuel c r : ℕ) → c < r → grow (suc fuel) c r ≡ grow fuel (grow_step c r) r
unfolding grow
grow-grow_step fuel c r h = ground arith

-- Twice a number, by recursion.
abbrev double : ℕ → ℕ
double zero = zero
double (suc k) = suc (suc (double k))

pow_step : (k c c₂ r : ℕ) → r ≤ c * 2 ^ suc k → (c * 2 ≤ c₂) ⊎ (c₂ ≡ r) → r ≤ c₂ * 2 ^ k
pow_step k c c₂ r h (inl l) = omega (
  arith,
  h,
  ap (λ q. c * q) (pow-succ' 2 k) ∙ sym (mul_assoc c 2 (2 ^ k)),
  mul-le-mul_right (2 ^ k) l,
)
pow_step k c c₂ r h (inr e) =
    rw e (le-mul_of_pos_right {m = 2 ^ k} r (one-le-pow k 2 (omega arith)))

-- With a bound on the required space that doubles at every second round.
grow_within :
    (k c r : ℕ)
    → 1 ≤ c
    → c ≤ size_max
    → r ≤ size_max
    → r ≤ c * 2 ^ k
    → (out : ℕ) × (grow (double k) c r ≡ some out) × Suffices r out × c ≤ out
grow_within zero c r h u v b =
    (c, grow_done 0 c r (omega arith), record { enough = omega arith; in_range = u }, omega arith)
grow_within (suc k) c r h u v b = elim (Bool-cases (ltb c r)) [
  | inr e ↦ (
    c,
    grow_done (suc (suc (double k))) c r (ground arith),
    record { enough = ground arith; in_range = u },
    omega arith,
  )
  | inl e ↦
      let c₁ = grow_step c r in
      let up₁ = grow_step-up c r h (ground arith) in
      let u₁ = grow_step_range c r u v in
      elim (Bool-cases (ltb c₁ r)) [
        | inr e₁ ↦ (
          c₁,
          grow-grow_step (suc (double k)) c r (ground arith)
              ∙ grow_done (suc (double k)) c₁ r (ground arith),
          record { enough = ground arith; in_range = u₁ },
          omega arith,
        )
        | inl e₁ ↦
            let c₂ = grow_step c₁ r in
            let up₂ = grow_step-up c₁ r (omega (arith, up₁)) (ground arith) in
            let rest =
              grow_within k c₂ r (omega (arith, up₁, up₂)) (grow_step_range c₁ r u₁ v) v
                (pow_step k c c₂ r b (grow_step_twice c r h (ground arith) (ground arith) v)) in
            (
              rest.0,
              grow-grow_step (suc (double k)) c r (ground arith)
                  ∙ (grow-grow_step (double k) c₁ r (ground arith) ∙ rest.1),
              rest.2,
              omega (arith, up₁, up₂, rest.3),
            )
      ]
]

-- For a capacity that is not 0 and a required space, both a `size_t`, the loop ends within 128 rounds,
-- with a `size_t` that is at least as large as both.
pub grow_lem :
    (capacity required : ℕ)
    → 1 ≤ capacity
    → capacity ≤ size_max
    → required ≤ size_max
    → (out : ℕ) × (grow rounds capacity required ≡ some out)
      × Suffices required out
      × (capacity ≤ out)
grow_lem capacity required h u v = grow_within 64 capacity required h u v (omega arith)
