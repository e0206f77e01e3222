-- ===== src/Prelude/Octets.antt =====
-- Octet strings: little-endian integers in a buffer (`*reinterpret_cast<uintN_t*>(p)` on the
-- little-endian hosts that the sources name first), texts as octets, and their comparison.
use Prim.Native.Char.{code}
use Prim.Native.String.{String}
use Prim.Native.Nat.{ℕ, zero, suc, ◌+◌, ◌*◌, ◌/◌, ◌%◌, ◌^◌, ◌≤◌, ◌<◌}
use mathlib.Core.Path.{◌≡◌, refl, ap, ◌∙◌}
use mathlib.Core.Bool.{Bool, true, false, ◌&&◌}
use mathlib.Core.Logic.{◌↔◌}
use mathlib.Core.Option.{Option, none, some}
use mathlib.Core.List.{List, [], ◌∷◌, ◌++◌}
use native.Mathlib.Omega.{arith}
use native.Mathlib.Nat.{pow-suc}
use bats_protocol_api.Prelude.Tests.{◌==◌}
use bats_protocol_api.Prelude.Lists.{length, take}

abbrev pub Octets : Type 0
Octets = List ℕ

abbrev pub codes : String → Octets
codes String.[] = []
codes (String.◌∷◌ c s) = code c ∷ codes s

-- `w` octets of `n`, the lowest first.
unfoldable pub le_octets : ℕ → ℕ → Octets
le_octets zero n = []
le_octets (suc w) n = (n % 256) ∷ le_octets w (n / 256)

abbrev pub push_octet : ℕ → Option ℕ → Option ℕ
push_octet b none = none
push_octet b (some v) = some (b + 256 * v)

-- The number that the first `w` octets stand for; `none` is a read past the end of the buffer.
unfoldable pub read_le : ℕ → Octets → Option ℕ
read_le zero bs = some 0
read_le (suc w) [] = none
read_le (suc w) (b ∷ bs) = push_octet b (read_le w bs)

digit_split : (n m : ℕ) → n < m * 256 → n / 256 < m
digit_split n m h = omega arith

-- What was stored is read back, whatever follows it.
pub read_le-le_octets :
    (w n : ℕ) (rest : Octets) → n < 256 ^ w → read_le w (le_octets w n ++ rest) ≡ some n
unfolding read_le le_octets
read_le-le_octets zero n rest h = ap some (omega arith)
read_le-le_octets (suc w) n rest h =
    ap (push_octet (n % 256))
      (read_le-le_octets w (n / 256) rest (digit_split n (256 ^ w) (omega (arith, pow-suc 256 w))))
    ∙ ap some (omega arith)

-- A read that the first `n` octets serve.
pub read_le-take : (w n : ℕ) (bs : Octets) → w ≤ n → read_le w (take n bs) ≡ read_le w bs
unfolding read_le
read_le-take zero n bs h = refl
read_le-take (suc w) zero bs h = absurd (omega arith)
read_le-take (suc w) (suc n) [] h = refl
read_le-take (suc w) (suc n) (b ∷ bs) h = ap (push_octet b) (read_le-take w n bs (omega arith))

-- Storing into a field drops the high bits.
pub le_octets_wrap16 : (n : ℕ) → le_octets 2 (n % 65536) ≡ le_octets 2 n
unfolding le_octets
le_octets_wrap16 n = ground arith

pub le_octets_wrap32 : (n : ℕ) → le_octets 4 (n % 2 ^ 32) ≡ le_octets 4 n
unfolding le_octets
le_octets_wrap32 n = ground arith

pub length-le_octets : (w n : ℕ) → length (le_octets w n) ≡ w
unfolding le_octets
length-le_octets zero n = refl
length-le_octets (suc w) n = ap suc (length-le_octets w (n / 256))

abbrev pub octets_eq : Octets → Octets → Bool
octets_eq [] [] = true
octets_eq [] (y ∷ ys) = false
octets_eq (x ∷ xs) [] = false
octets_eq (x ∷ xs) (y ∷ ys) = x == y && octets_eq xs ys

pub octets_eq_iff : (xs ys : Octets) → (octets_eq xs ys ≡ true) ↔ (xs ≡ ys)
octets_eq_iff [] [] = ground arith
octets_eq_iff [] (y ∷ ys) = ground arith
octets_eq_iff (x ∷ xs) [] = ground arith
octets_eq_iff (x ∷ xs) (y ∷ ys) = ground (arith, octets_eq_iff xs ys)

abbrev pub is_empty {ℓ} : {A : Type ℓ} → List A → Bool
is_empty [] = true
is_empty (x ∷ xs) = false
