-- ===== src/Prelude/Bits.antt =====
-- `|` of numbers with no common binary digit is their sum.
use Prim.Native.Nat.{
  ℕ, zero, suc, ◌+◌, ◌*◌, ◌/◌, ◌^◌, ◌≤◌, ◌<◌, max, bit_or, digits, bit_or-bitwise,
}
use mathlib.Core.Path.{◌≡◌, refl, ap, ◌∙◌}
use native.Mathlib.Omega.{arith}
use native.Mathlib.Nat.{pow-suc}

abbrev or_digits : ℕ → ℕ → ℕ → ℕ
or_digits n a b = digits (λ c. c) max n a b

or_digits-zero : (n a : ℕ) → a ≤ n → or_digits n a 0 ≡ a
or_digits-zero zero zero h = refl
or_digits-zero zero (suc a) h = absurd (omega arith)
or_digits-zero (suc n) zero h = refl
or_digits-zero (suc n) (suc a) h = omega (arith, or_digits-zero n (suc a / 2) (omega arith))

-- The lower number stays below the lowest digit of the upper one.
or_digits-add : (n w k a lo : ℕ) → a ≡ k * 2 ^ w → a ≤ n → lo < 2 ^ w → or_digits n a lo ≡ a + lo
or_digits-add zero w k zero lo e h l = omega arith
or_digits-add zero w k (suc a) lo e h l = absurd (omega arith)
or_digits-add (suc n) w k zero lo e h l = omega arith
or_digits-add (suc n) zero k (suc a) zero e h l = or_digits-zero (suc n) (suc a) h ∙ omega arith
or_digits-add (suc n) zero k (suc a) (suc lo) e h l = absurd (omega arith)
or_digits-add (suc n) (suc w) k (suc a) lo e h l = omega (
  arith,
  pow-suc 2 w,
  or_digits-add n w k (suc a / 2) (lo / 2) (omega (arith, ap (λ (t : ℕ). k * t) (pow-suc 2 w)))
      (omega arith) (omega (arith, pow-suc 2 w)),
  ap (λ (t : ℕ). k * t) (pow-suc 2 w),
)

pub bit_or-add : (w k lo : ℕ) → lo < 2 ^ w → bit_or (k * 2 ^ w) lo ≡ k * 2 ^ w + lo
bit_or-add w k lo h =
    bit_or-bitwise (k * 2 ^ w) lo
    ∙ or_digits-add (k * 2 ^ w) w k (k * 2 ^ w) lo refl (omega arith) h
