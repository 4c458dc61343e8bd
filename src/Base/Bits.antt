-- ===== src/Base/Bits.antt =====
-- The bits of a number, and what `|` with a single bit does to them.
use Prim.Native.Nat.{
  ℕ, zero, suc, ◌+◌, ◌*◌, ◌/◌, ◌%◌, ◌^◌, ◌≤◌, max, digits, bit_or, bit_or-bitwise,
}
use mathlib.Core.Path.{◌≡◌, refl, ap, ◌∙◌}
use mathlib.Core.Bool.{Bool, false, ◌||◌}
use native.Mathlib.Omega.{arith}
use native.Mathlib.Nat.{pow-suc}
use peer_calls.Base.Tests.{◌==◌}

-- Whether bit `k` of `w` is set, counted from the lowest.
unfoldable pub bit_at : ℕ → ℕ → Bool
bit_at w zero = w % 2 == 1
bit_at w (suc k) = bit_at (w / 2) k

-- `bit_or` by its lowest digit, from the recursion on digits that the native operation means.
abbrev or_digits : ℕ → ℕ → ℕ → ℕ
or_digits fuel a b = digits (λ y. y) max fuel a b

or_digits_enough :
    (fuel more a b : ℕ) → a ≤ fuel → a ≤ more → or_digits fuel a b ≡ or_digits more a b
or_digits_enough zero zero a b p q = refl
or_digits_enough zero (suc more) zero b p q = refl
or_digits_enough zero (suc more) (suc a) b p q = absurd (omega arith)
or_digits_enough (suc fuel) zero zero b p q = refl
or_digits_enough (suc fuel) zero (suc a) b p q = absurd (omega arith)
or_digits_enough (suc fuel) (suc more) zero b p q = refl
or_digits_enough (suc fuel) (suc more) (suc a) b p q =
    omega (arith, or_digits_enough fuel more (suc a / 2) (b / 2) (omega arith) (omega arith))

zero-bit_or : (b : ℕ) → bit_or 0 b ≡ b
zero-bit_or b = bit_or-bitwise 0 b

bit_or_low : (a b : ℕ) → bit_or a b ≡ bit_or (a / 2) (b / 2) * 2 + max (a % 2) (b % 2)
bit_or_low zero b = omega (arith, zero-bit_or b, zero-bit_or (b / 2))
bit_or_low (suc a) b = omega (
  arith,
  bit_or-bitwise (suc a) b,
  bit_or-bitwise (suc a / 2) (b / 2),
  or_digits_enough a (suc a / 2) (suc a / 2) (b / 2) (omega arith) (omega arith),
)

bit_or_half : (a b : ℕ) → bit_or a b / 2 ≡ bit_or (a / 2) (b / 2)
bit_or_half a b = omega (arith, bit_or_low a b)

bit_or_last : (a b : ℕ) → bit_or a b % 2 ≡ max (a % 2) (b % 2)
bit_or_last a b = omega (arith, bit_or_low a b)

two_pow_half : (j : ℕ) → (2 ^ suc j / 2 ≡ 2 ^ j) × (2 ^ suc j % 2 ≡ 0)
two_pow_half j = omega (arith, pow-suc 2 j)

bit_or-zero_enough : (n a : ℕ) → a ≤ n → bit_or a 0 ≡ a
bit_or-zero_enough n zero h = refl
bit_or-zero_enough zero (suc a) h = absurd (omega arith)
bit_or-zero_enough (suc n) (suc a) h =
    omega (arith, bit_or_low (suc a) 0, bit_or-zero_enough n (suc a / 2) (omega arith))

pub bit_or-zero : (a : ℕ) → bit_or a 0 ≡ a
bit_or-zero a = bit_or-zero_enough a a (omega arith)

-- Setting bit `j` sets that bit and leaves the others.
pub bit_at-set : (k j w : ℕ) → bit_at (bit_or w (2 ^ j)) k ≡ (bit_at w k || (k == j))
unfolding bit_at
bit_at-set zero zero w = ground (arith, bit_or_last w 1)
bit_at-set zero (suc j) w = ground (arith, bit_or_last w (2 ^ suc j), two_pow_half j)
bit_at-set (suc k) zero w = ground (arith, bit_or_half w 1, bit_or-zero (w / 2))
bit_at-set (suc k) (suc j) w =
    ap (λ (t : ℕ). bit_at t k)
      (bit_or_half w (2 ^ suc j) ∙ ap (λ (t : ℕ). bit_or (w / 2) t) (two_pow_half j).0)
    ∙ bit_at-set k j (w / 2)
    ∙ ground arith

pub bit_at-zero : (k : ℕ) → bit_at 0 k ≡ false
unfolding bit_at
bit_at-zero zero = refl
bit_at-zero (suc k) = bit_at-zero k
