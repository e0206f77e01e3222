-- ===== src/Prelude/Floating.antt =====
-- Floating point, which the checker has no numbers for. `float` and `double` are one type here: a
-- conversion to the wider of the two is exact. The operations are those that the sources apply.
use Prim.Native.Nat.{ℕ, ◌+◌, ◌*◌, ◌/◌, ◌^◌}
use mathlib.Core.Bool.{Bool}
use bats_protocol_api.Prelude.Tests.{ltb}
use bats_protocol_api.Prelude.Int.{ℤ, pos}

pub record Floating : Type 1 where
  pub Float : Type 0
  -- from an integer, and the literal `m / 10 ^ d`
  pub of_nat : ℕ → Float
  pub literal : ℕ → ℕ → Float
  pub plus : Float → Float → Float
  pub times : Float → Float → Float
  pub over : Float → Float → Float
  pub less : Float → Float → Bool
  pub round : Float → Float
  -- the conversions to an unsigned and to a signed integer
  pub to_nat : Float → ℕ
  pub to_int : Float → ℤ

-- Thousandths, rounded down: enough to run the model.
abbrev pub thousandths : Floating
thousandths = record {
  Float = ℕ;
  of_nat = λ n. n * 1000;
  literal = λ m d. m * 1000 / 10 ^ d;
  plus = λ a b. a + b;
  times = λ a b. a * b / 1000;
  over = λ a b. a * 1000 / b;
  less = λ a b. ltb a b;
  round = λ a. (a + 500) / 1000 * 1000;
  to_nat = λ a. a / 1000;
  to_int = λ a. pos (a / 1000);
}
