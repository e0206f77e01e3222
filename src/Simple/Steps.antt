-- ===== src/Simple/Steps.antt =====
-- What the steps of the small client keep to (example/simple/bats_client_example.cc), both loops of
-- StartSend keep to.
use bats_protocol_api.Prelude.{if◌then◌else◌}
use bats_protocol_api.Prelude.Results.{Fault, Result, ◌>>=◌, fault, waiting, ok, ok-injective}
use bats_protocol_api.Simple.{
  Happening, BatsSender, happen, SenderRound, await_connection, happen_all, send_all, reconnect,
  is_sending, is_awaiting, send_once,
}
use bats_protocol_api.Prelude.{List, ◌∷◌, ◌≡◌, [], subst, Bool, Bool-cases, true, inl, false, inr}

-- A property of the value that a call comes to, or of the fault in which it ends.
abbrev pub Yields : (Fault → Type 0) → (BatsSender → Type 0) → Result BatsSender → Type 0
Yields E P (fault e) = E e
Yields E P (ok s) = P s

pub Yields-bind :
    (E : Fault → Type 0) (P Q : BatsSender → Type 0) (r : Result BatsSender)
    (f : BatsSender → Result BatsSender)
    → Yields E P r
    → ((s : BatsSender) → P s → Yields E Q (f s))
    → Yields E Q (r >>= f)
Yields-bind E P Q (fault e) f h k = h
Yields-bind E P Q (ok s) f h k = k s h

pub Yields-mono :
    (E : Fault → Type 0) (P Q : BatsSender → Type 0) (r : Result BatsSender)
    → Yields E P r
    → ((s : BatsSender) → P s → Q s)
    → Yields E Q r
Yields-mono E P Q (fault e) h k = h
Yields-mono E P Q (ok s) h k = k s h

pub Yields-ok :
    (E : Fault → Type 0) (P : BatsSender → Type 0) (r : Result BatsSender) {t : BatsSender}
    → Yields E P r
    → r ≡ ok t
    → P t
Yields-ok E P (fault e) h q = cc
Yields-ok E P (ok s) {t} h q = subst P (ok-injective s t q) h

-- All that happens in a list is of a kind.
abbrev pub AllHappen : (Happening → Type 0) → List Happening → Type 0
AllHappen Q [] = Unit
AllHappen Q (now ∷ later) = Q now × AllHappen Q later

abbrev pub AllSleeps : (Happening → Type 0) → List (List Happening) → Type 0
AllSleeps Q [] = Unit
AllSleeps Q (now ∷ later) = AllHappen Q now × AllSleeps Q later

abbrev pub AllRounds : (Happening → Type 0) → List SenderRound → Type 0
AllRounds Q [] = Unit
AllRounds Q (round ∷ rounds) = AllHappen Q round.happenings × AllRounds Q rounds

-- What holds of all that can happen.
module _ (Q : Happening → Type 0) (all : (h : Happening) → Q h) where
  pub all_happen : (hs : List Happening) → AllHappen Q hs
  all_happen [] = tt
  all_happen (now ∷ later) = (all now, all_happen later)

  pub all_sleeps : (sleeps : List (List Happening)) → AllSleeps Q sleeps
  all_sleeps [] = tt
  all_sleeps (now ∷ later) = (all_happen now, all_sleeps later)

  pub all_rounds : (rounds : List SenderRound) → AllRounds Q rounds
  all_rounds [] = tt
  all_rounds (round ∷ rounds) = (all_happen round.happenings, all_rounds rounds)

module _ (E : Fault → Type 0) (P : BatsSender → Type 0) (Q : Happening → Type 0)
    (kept : (h : Happening) (s : BatsSender) → Q h → P s → Yields E P (happen h s)) where
  pub happen_all-Yields :
      (hs : List Happening) (s : BatsSender) → AllHappen Q hs → P s → Yields E P (happen_all hs s)
  unfolding happen_all
  happen_all-Yields [] s q p = p
  happen_all-Yields (now ∷ later) s q p =
      Yields-bind E P P (happen now s) (happen_all later) (kept now s q.0 p)
        (λ t. happen_all-Yields later t q.1)

  pub await_connection-Yields :
      E waiting
      → ((s : BatsSender) → P s → P (reconnect s))
      → (sleeps : List (List Happening)) (s : BatsSender) → AllSleeps Q sleeps
      → P s
      → Yields E P (await_connection sleeps s)
  unfolding await_connection
  await_connection-Yields e again [] s q p = elim (Bool-cases (is_awaiting s)) [
    | inl y ↦ rw y e
    | inr n ↦ rw n p
  ]
  await_connection-Yields e again (now ∷ later) s q p = elim (Bool-cases (is_awaiting s)) [
    | inl y ↦ rw y (
        Yields-bind E P P (happen_all now s) (λ t. await_connection later (reconnect t))
          (happen_all-Yields now s q.0 p)
          (λ t k. await_connection-Yields e again later (reconnect t) q.1 (again t k)))
    | inr n ↦ rw n p
  ]

  -- Where the loop ends, its test fails.
  pub send_all-Yields :
      E waiting
      → ((accepted : Bool) (s : BatsSender)
          → is_sending s ≡ true
          → P s
          → Yields E P (send_once accepted s))
      → (rounds : List SenderRound) (s : BatsSender) → AllRounds Q rounds
      → P s
      → Yields E (λ t. P t × (is_sending t ≡ false)) (send_all rounds s)
  unfolding send_all
  send_all-Yields e sends [] s q p = elim (Bool-cases (is_sending s)) [
    | inl y ↦ rw y e
    | inr n ↦ rw n (p, n)
  ]
  send_all-Yields e sends (round ∷ rounds) s q p =
      Yields-bind E P (λ t. P t × (is_sending t ≡ false)) (happen_all round.happenings s)
        (λ t.
          if is_sending t then (send_once round.accepted t >>= λ u. send_all rounds u) else ok t)
        (happen_all-Yields round.happenings s q.0 p)
        (λ t k. elim (Bool-cases (is_sending t)) [
          | inl y ↦ rw y (
              Yields-bind E P (λ t. P t × (is_sending t ≡ false)) (send_once round.accepted t)
                (send_all rounds) (sends round.accepted t y k)
                (λ u. send_all-Yields e sends rounds u q.1))
          | inr n ↦ rw n (k, n)
        ])
