-- ===== src/Api/Process/Stopping.antt =====
-- StopAll and the signal callback.
use bats_protocol_api.Api.Tests
use bats_protocol_api.Test.Number as Speed
use bats_protocol_api.Api.Polling.{is_interrupted}
use bats_protocol_api.Stream.{Platform}
use bats_protocol_api.Api.Tests.{
  test_number, Visit, ApiTest, was_stopped, speed_test, file_transfer,
}
use bats_protocol_api.Prelude.{
  ◌∷◌, List, ℕ, ◌≡◌, true, false, ◌==◌, inr, arith, inl, subst, refl, ap, [],
}
use bats_protocol_api.Api.Process.{stop_each, stop_all, on_signal, Api, sigint}
use bats_protocol_api.Prelude.Tables.{keys, AllEntries}
use bats_protocol_api.Prelude.Results.{
  Ensures, ok, Ensures-bind, Result-cases, Ensures-at, ok-injective,
}
use bats_protocol_api.Test.Control.{stop_test}
use bats_protocol_api.Transfer.Number.{stop-HasNumber, stop-is_stopped}

module _ {P : Platform} where
  abbrev pub IsStopped : ℕ → ApiTest P → Type 0
  IsStopped i u = (test_number u ≡ i) × (was_stopped u ≡ true)

  pub stop-IsStopped :
      (v : Visit P) (t : ApiTest P) → Ensures (IsStopped (test_number t)) (Tests.stop v t)
  unfolding Tests.stop test_number was_stopped
  stop-IsStopped v (speed_test t) =
      Ensures-bind (Speed.IsStopped t.test_id) (IsStopped t.test_id) (stop_test v.moment t) _
        (Speed.stop_test-IsStopped v.moment t) λ (u, first) h. h
  stop-IsStopped v (file_transfer t) = (stop-HasNumber t, stop-is_stopped t)

  abbrev pub AllStopped : List (ℕ × ApiTest P) → Type 0
  AllStopped tests = AllEntries (λ k t. was_stopped t ≡ true) tests

  abbrev StoppedLike : List (ℕ × ApiTest P) → List (ℕ × ApiTest P) → Type 0
  StoppedLike tests us = (keys us ≡ keys tests) × AllStopped us

  stop_each-AllStopped :
      (v : ℕ → Visit P) (tests : List (ℕ × ApiTest P))
      → Ensures (StoppedLike tests) (stop_each v tests)
  unfolding stop_each keys
  stop_each-AllStopped v [] = (refl, tt)
  stop_each-AllStopped v ((k, t) ∷ tests) =
      let Q = StoppedLike ((k, t) ∷ tests) in
      Ensures-bind (IsStopped (test_number t)) Q (Tests.stop (v k) t) _ (stop-IsStopped (v k) t)
        λ u h.
          Ensures-bind (StoppedLike tests) Q (stop_each v tests) _ (stop_each-AllStopped v tests)
            λ others s. (ap (◌∷◌ k) s.0, (h.1, s.1))

  -- The first StopAll that comes back has stopped every test of the table and kept its keys; it sets
  -- the signal SIGINT, on which the polling loops end, and a further StopAll changes nothing.
  pub stop_all_lem :
      (v w : ℕ → Visit P) (a : Api P) {b : Api P}
      → a.is_stopped ≡ false
      → stop_all v a ≡ ok b
      → AllStopped b.tests
        × (keys b.tests ≡ keys a.tests)
        × (b.stop_signal ≡ sigint)
        × (stop_all w b ≡ ok b)
  unfolding stop_all
  stop_all_lem v w a {b} n e = elim (Result-cases (stop_each v a.tests)) [
    | inr (f, q) ↦ absurd (ground arith)
    | inl (tests, q) ↦
        let all =
          Ensures-at (StoppedLike a.tests) (stop_each v a.tests) (stop_each-AllStopped v a.tests)
            q in
        subst
          (λ (c : Api P).
            AllStopped c.tests
            × (keys c.tests ≡ keys a.tests)
            × (c.stop_signal ≡ sigint)
            × (stop_all w c ≡ ok c))
          (ok-injective (record a { is_stopped = true; stop_signal = sigint; tests = tests }) b
            (ground arith))
          (all.1, all.0, refl, refl)
  ]

  -- After the first signal that the callback serves, whichever it is, the polling loops end. A
  -- further signal is stored as it is, without a StopAll: the loops then go on, unless it is SIGINT.
  pub on_signal-again :
      (sig later : ℕ) (v w : ℕ → Visit P) (a : Api P) {b : Api P}
      → a.is_stopped ≡ false
      → on_signal sig v a ≡ ok b
      → (is_interrupted b ≡ true)
        × (on_signal later w b ≡ ok (record b { stop_signal = later }))
        × (is_interrupted (record b { stop_signal = later }) ≡ (later == sigint))
  unfolding on_signal stop_all
  on_signal-again sig later v w a {b} n e = elim (Result-cases (stop_each v a.tests)) [
    | inr (f, q) ↦ absurd (ground arith)
    | inl (tests, q) ↦
        subst
          (λ (c : Api P).
            (is_interrupted c ≡ true)
            × (on_signal later w c ≡ ok (record c { stop_signal = later }))
            × (is_interrupted (record c { stop_signal = later }) ≡ (later == sigint)))
          (ok-injective (record a { is_stopped = true; stop_signal = sigint; tests = tests }) b
            (ground arith))
          (refl, refl, refl)
  ]
