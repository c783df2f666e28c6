-- ===== src/Prelude/Bits.antt =====
-- Shifts, masks and disjoint `|` as arithmetic, and checks of a small range by evaluation.
use Prim.Native.Nat.{
  ℕ, zero, suc, ◌+◌, ◌*◌, ◌/◌, ◌%◌, ◌^◌, ◌≤◌, ◌<◌, min, max, digits, bit_and, bit_or,
  bit_and-bitwise, bit_or-bitwise,
}
use mathlib.Core.Path.{◌≡◌, refl, ap}
use mathlib.Core.Bool.{Bool, true, ◌&&◌}
use native.Mathlib.Nat.{pow-suc}
use native.Mathlib.Omega.{arith}

-- Whether a test passes at every number below a bound.
unfoldable pub every_below : ℕ → (ℕ → Bool) → Bool
every_below zero test = true
every_below (suc top) test = every_below top test && test top

pub every_below-at :
    (top : ℕ) (test : ℕ → Bool) (k : ℕ) → every_below top test ≡ true → k < top → test k ≡ true
unfolding every_below
every_below-at zero test k all k-below = absurd (omega arith)
every_below-at (suc top) test k all k-below = ground (arith, every_below-at top test k)

-- The native operations recur on a count of digits: any two counts that are large enough agree.
enough_digits :
    (z : ℕ → ℕ) (f : ℕ → ℕ → ℕ) (a b k l : ℕ) → a ≤ k → a ≤ l → digits z f k a b ≡ digits z f l a b
enough_digits z f zero b zero zero p q = refl
enough_digits z f zero b zero (suc l) p q = refl
enough_digits z f zero b (suc k) zero p q = refl
enough_digits z f zero b (suc k) (suc l) p q = refl
enough_digits z f (suc a) b zero l p q = absurd (omega arith)
enough_digits z f (suc a) b (suc k) zero p q = absurd (omega arith)
enough_digits z f (suc a) b (suc k) (suc l) p q =
    ap (λ (t : ℕ). t * 2 + f (suc a % 2) (b % 2))
      (enough_digits z f (suc a / 2) (b / 2) k l (omega arith) (omega arith))

-- The lowest digit of `|` and of `&`.
or_digit : (a b : ℕ) → bit_or a b ≡ bit_or (a / 2) (b / 2) * 2 + max (a % 2) (b % 2)
or_digit zero b = omega (arith, bit_or-bitwise 0 b, bit_or-bitwise 0 (b / 2))
or_digit (suc a) b = omega (
  arith,
  bit_or-bitwise (suc a) b,
  bit_or-bitwise (suc a / 2) (b / 2),
  enough_digits (λ y. y) max (suc a / 2) (b / 2) a (suc a / 2) (omega arith) (omega arith),
)

and_digit : (a b : ℕ) → bit_and a b ≡ bit_and (a / 2) (b / 2) * 2 + min (a % 2) (b % 2)
and_digit zero b = omega (arith, bit_and-bitwise 0 b, bit_and-bitwise 0 (b / 2))
and_digit (suc a) b = omega (
  arith,
  bit_and-bitwise (suc a) b,
  bit_and-bitwise (suc a / 2) (b / 2),
  enough_digits (λ y. 0) min (suc a / 2) (b / 2) a (suc a / 2) (omega arith) (omega arith),
)

or_zero_upto : (n a : ℕ) → a ≤ n → bit_or a 0 ≡ a
or_zero_upto n zero h = refl
or_zero_upto zero (suc a) h = absurd (omega arith)
or_zero_upto (suc n) (suc a) h =
    omega (arith, or_digit (suc a) 0, or_zero_upto n (suc a / 2) (omega arith))

and_zero_upto : (n a : ℕ) → a ≤ n → bit_and a 0 ≡ 0
and_zero_upto n zero h = refl
and_zero_upto zero (suc a) h = absurd (omega arith)
and_zero_upto (suc n) (suc a) h =
    omega (arith, and_digit (suc a) 0, and_zero_upto n (suc a / 2) (omega arith))

-- `(a << k) | b` is a sum where `b` fits below the shift.
pub or_shifted : (k a b : ℕ) → b < 2 ^ k → bit_or (a * 2 ^ k) b ≡ a * 2 ^ k + b
or_shifted zero a b h = ground (arith, or_zero_upto (a * 1) (a * 1))
or_shifted (suc k) a b h = ground (
  arith,
  pow-suc 2 k,
  ap (λ (t : ℕ). a * t) (pow-suc 2 k),
  or_digit (a * 2 ^ suc k) b,
  or_shifted k a (b / 2) (omega (arith, pow-suc 2 k)),
)

-- `a & (2 ^ k - 1)` is the remainder.
pub and_63 : (a : ℕ) → bit_and a 63 ≡ a % 64
and_63 a = omega (
  arith,
  and_digit a 63,
  and_digit (a / 2) 31,
  and_digit (a / 2 / 2) 15,
  and_digit (a / 2 / 2 / 2) 7,
  and_digit (a / 2 / 2 / 2 / 2) 3,
  and_digit (a / 2 / 2 / 2 / 2 / 2) 1,
  and_zero_upto (a / 2 / 2 / 2 / 2 / 2 / 2) (a / 2 / 2 / 2 / 2 / 2 / 2),
)

pub and_3 : (a : ℕ) → bit_and a 3 ≡ a % 4
and_3 a = omega (arith, and_digit a 3, and_digit (a / 2) 1, and_zero_upto (a / 2 / 2) (a / 2 / 2))

and_even : (a m n : ℕ) → n ≡ m * 2 → bit_and a n ≡ bit_and (a / 2) m * 2
and_even a m n e = omega (arith, and_digit a n, ap (bit_and (a / 2)) (half e))
  where
    half : n ≡ m * 2 → n / 2 ≡ m
    half q = omega arith

-- The mask 0x80.
pub and_128 : (a : ℕ) → bit_and a 128 ≡ a / 128 % 2 * 128
and_128 a = omega (
  arith,
  and_even a 64 128 refl,
  and_even (a / 2) 32 64 refl,
  and_even (a / 2 / 2) 16 32 refl,
  and_even (a / 2 / 2 / 2) 8 16 refl,
  and_even (a / 2 / 2 / 2 / 2) 4 8 refl,
  and_even (a / 2 / 2 / 2 / 2 / 2) 2 4 refl,
  and_even (a / 2 / 2 / 2 / 2 / 2 / 2) 1 2 refl,
  and_digit (a / 2 / 2 / 2 / 2 / 2 / 2 / 2) 1,
  and_zero_upto (a / 2 / 2 / 2 / 2 / 2 / 2 / 2 / 2) (a / 2 / 2 / 2 / 2 / 2 / 2 / 2 / 2),
)

or_half : (a b : ℕ) → bit_or a b / 2 ≡ bit_or (a / 2) (b / 2)
or_half a b = omega (arith, or_digit a b)

-- Bit 7 of `|`.
pub or_bit_7 : (a b : ℕ) → bit_or a b / 128 % 2 ≡ max (a / 128 % 2) (b / 128 % 2)
or_bit_7 a b = omega (
  arith,
  or_half a b,
  or_half (a / 2) (b / 2),
  or_half (a / 2 / 2) (b / 2 / 2),
  or_half (a / 2 / 2 / 2) (b / 2 / 2 / 2),
  or_half (a / 2 / 2 / 2 / 2) (b / 2 / 2 / 2 / 2),
  or_half (a / 2 / 2 / 2 / 2 / 2) (b / 2 / 2 / 2 / 2 / 2),
  or_half (a / 2 / 2 / 2 / 2 / 2 / 2) (b / 2 / 2 / 2 / 2 / 2 / 2),
  or_digit (a / 2 / 2 / 2 / 2 / 2 / 2 / 2) (b / 2 / 2 / 2 / 2 / 2 / 2 / 2),
)
