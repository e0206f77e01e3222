-- ===== src/Prelude/Results.antt =====
-- What a call of the program comes to: a value, or one of the ways in which the process ends.
use mathlib.Core.Path.{subst}
use bats_protocol_api.Prelude.Tests.{if◌then◌else◌}
use mathlib.Core.Bool.{Bool, true, false}
use mathlib.Core.Option.{Option, none, some}
use mathlib.Core.Path.{◌≡◌, refl}
use mathlib.Core.Logic.{◌⊎◌, inl, inr}

pub data Fault : Type 0 where
  -- exit(EXIT_FAILURE)
  exit_failure : Fault
  -- a failed assert
  assertion : Fault
  -- an access past the end of a buffer or container
  out_of_bounds : Fault
  null_pointer : Fault
  -- an uncaught exception of the standard library
  exception : Fault
  -- an integer division by zero
  division : Fault
  -- a loop that is still waiting when the given schedule ends
  waiting : Fault

-- The fault ends all that would follow.
pub data Result {ℓ} (Value : Type ℓ) : Type ℓ where
  fault : Fault → Result Value
  ok : Value → Result Value

module _ {κ ℓ} {Value : Type κ} {Next : Type ℓ} where
  infixl 5 ◌>>=◌
  abbrev pub ◌>>=◌ : Result Value → (Value → Result Next) → Result Next
  fault reason >>= step = fault reason
  ok value >>= step = step value

  -- A chain that came to a value has come to one at its first step.
  pub >>=-ok :
      (first : Result Value) (step : Value → Result Next) {next : Next}
      → (first >>= step) ≡ ok next
      → (value : Value) × (first ≡ ok value) × (step value ≡ ok next)
  >>=-ok (fault reason) step e = cc
  >>=-ok (ok value) step e = (value, refl, e)

-- A step without a value.
infixl 5 ◌>>◌
abbrev pub ◌>>◌ {ℓ} : {Next : Type ℓ} → Result (Unit {0}) → Result Next → Result Next
check >> next = check >>= λ done. next

-- What must hold for the program to go on, and the fault otherwise.
abbrev pub require : Bool → Fault → Result (Unit {0})
require holds reason = elim holds [ false ↦ fault reason | true ↦ ok tt ]

abbrev pub or_fault {ℓ} : {A : Type ℓ} → Option A → Fault → Result A
or_fault none reason = fault reason
or_fault (some a) reason = ok a

pub ok-injective {ℓ} : {A : Type ℓ} (a b : A) → ok a ≡ ok b → a ≡ b
ok-injective a b h = cc

-- To split on a computed result and keep the equation.
pub Result-cases {ℓ} :
    {A : Type ℓ} (r : Result A) → ((a : A) × (r ≡ ok a)) ⊎ ((e : Fault) × (r ≡ fault e))
Result-cases (ok a) = inl (a, refl)
Result-cases (fault e) = inr (e, refl)

-- A property of the value that a call comes to, if it comes to one.
module _ {ℓ κ} {A : Type ℓ} where
  abbrev pub Ensures : (A → Type κ) → Result A → Type κ
  Ensures P (fault e) = Unit
  Ensures P (ok a) = P a

  pub Ensures-at : (P : A → Type κ) (r : Result A) {a : A} → Ensures P r → r ≡ ok a → P a
  Ensures-at P (fault e) h q = cc
  Ensures-at P (ok b) {a} h q = subst P (ok-injective b a q) h

  pub Ensures-if :
      (P : A → Type κ) (b : Bool) (r s : Result A)
      → Ensures P r
      → Ensures P s
      → Ensures P (if b then r else s)
  Ensures-if P true r s h k = h
  Ensures-if P false r s h k = k

module _ {ℓ κ μ ν} {A : Type ℓ} {B : Type κ} where
  pub Ensures-bind :
      (P : A → Type μ) (Q : B → Type ν) (r : Result A) (f : A → Result B)
      → Ensures P r
      → ((a : A) → P a → Ensures Q (f a))
      → Ensures Q (r >>= f)
  Ensures-bind P Q (fault e) f h k = tt
  Ensures-bind P Q (ok a) f h k = k a h

module _ {ℓ κ ν} {A : Type ℓ} {B : Type κ} where
  pub Ensures-after :
      (Q : B → Type ν) (r : Result A) (f : A → Result B)
      → ((a : A) → Ensures Q (f a))
      → Ensures Q (r >>= f)
  Ensures-after Q (fault e) f k = tt
  Ensures-after Q (ok a) f k = k a

module _ {ℓ κ μ} {A : Type ℓ} where
  pub Ensures-mono :
      (P : A → Type κ) (Q : A → Type μ) (r : Result A)
      → Ensures P r
      → ((a : A) → P a → Q a)
      → Ensures Q r
  Ensures-mono P Q (fault e) h k = tt
  Ensures-mono P Q (ok a) h k = k a h
