-- ===== src/Api/Polling/Ending.antt =====
-- The waits of the sender: they end.
use bats_protocol_api.Prelude.{ap}
use bats_protocol_api.Prelude.{if◌then◌else◌, ◌∙◌}
use bats_protocol_api.Prelude.Results.{fault, waiting}
use bats_protocol_api.Test.Status
use bats_protocol_api.Test.Control
use bats_protocol_api.Api.Tests
use bats_protocol_api.Stream.{Platform}
use bats_protocol_api.Api.Process.{Api, Host}
use bats_protocol_api.Prelude.{
  ℕ, List, Bool, ◌≡◌, ◌≤◌, ◌<◌, ◌∷◌, false, [], ◌+◌, length, ◌||◌, refl, arith, ◌-◌, Bool-cases,
  suc, ltb, inl, inr, true, zero, ◌&&◌,
}
use bats_protocol_api.Api.Polling.{
  first_test, is_over, await_ready, await_done, put_first, PollRound, with_first, is_interrupted,
  is_finished, run_test, default_key_file, default_cert_file, max_timeout,
}
use bats_protocol_api.Prelude.Results.{Result, ok}
use bats_protocol_api.Prelude.Octets.{is_empty}
use bats_protocol_api.Api.Tests.{ApiTest, speed_test, Visit}
use bats_protocol_api.Test.Status.{remaining}
use bats_protocol_api.Test.{IperfTest}
use bats_protocol_api.Prelude.Int.{◌==ℤ◌, pos}
use bats_protocol_api.Common.{is_sender_role}

over : (limit n : ℕ) → limit < n → ltb limit n ≡ true
over limit n h = ground arith

not_yet : (limit n : ℕ) → n ≤ limit → ltb limit n ≡ false
not_yet limit n h = ground arith

module _ {P : Platform} where
  -- The process has the test that it runs, and no callback takes it away.
  abbrev pub HasTest : Api P → Type 0
  HasTest a = is_empty a.tests ≡ false

  abbrev pub AllKeep : List (PollRound P) → Type 0
  AllKeep [] = Unit
  AllKeep (r ∷ rounds) = ((a : Api P) → HasTest a → HasTest (r.between a)) × AllKeep rounds

  first_test-cases :
      (a : Api P)
      → HasTest a
      → (t : ApiTest P) × (first_test a ≡ ok t) × ((u : ApiTest P) → HasTest (with_first u a))
  unfolding first_test put_first
  first_test-cases a h = by_tests a.tests refl h
    where
      by_tests :
          (tests : List (ℕ × ApiTest P))
          → a.tests ≡ tests
          → is_empty tests ≡ false
          → (t : ApiTest P) × (first_test a ≡ ok t) × ((u : ApiTest P) → HasTest (with_first u a))
      by_tests [] e n = cc
      by_tests (entry ∷ tests) e n = (entry.1, rw e refl, λ u. rw e refl)

  -- What the wait for the end of the test comes to: it used at most the rounds that it was given.
  pub IsWaited : ℕ → Result (Api P × ℕ) → Type 0
  IsWaited left r = (b : Api P) × (n : ℕ) × (r ≡ ok (b, n)) × (n ≤ left) × HasTest b

  -- The wait of a sender for TEST_DONE ends: with `left` tries and at least as many rounds it comes
  -- back, with at most `left` of them left, as long as the process has the test that it runs.
  pub await_done-ends :
      (left : ℕ) (rounds : List (PollRound P)) (a : Api P)
      → HasTest a
      → AllKeep rounds
      → left ≤ length rounds
      → IsWaited left (await_done left rounds a)
  unfolding await_done IsWaited
  await_done-ends zero rounds a h k l = (a, 0, refl, omega arith, h)
  await_done-ends (suc left) [] a h k l = absurd (omega arith)
  await_done-ends (suc left) (r ∷ rounds) a h k l = elim (Bool-cases (is_interrupted a)) [
    | inl stop ↦ (a, suc left, rw stop refl, omega arith, h)
    | inr go ↦
        let (t, q, keeps) = first_test-cases a h in
        let (u, finished) = is_finished t in
        elim (Bool-cases (is_finished t).1) [
          | inl f ↦
              (with_first (is_finished t).0 a, suc left, rw (go, q, f) refl, omega arith, keeps _)
          | inr f ↦
              let b = r.between (with_first (Tests.is_stream_done (is_finished t).0).0 a) in
              let (c, n, e, le, has) =
                await_done-ends left rounds b (k.0 _ (keeps _)) k.1 (omega arith) in
              (c, n, rw (go, q, f) e, omega (arith, le), has)
        ]
  ]

  -- A wait for the streams is over or timed out, with a rest of the schedule.
  pub IsAwaited : ℕ → List (PollRound P) → Result (Api P × (Bool × List (PollRound P))) → Type 0
  IsAwaited used rounds r =
      (b : Api P) × (ready : Bool) × (rest : List (PollRound P)) × (r ≡ ok (b, (ready, rest)))
      × (length rounds ≤ length rest + used)

  is_over-cases :
      (a : Api P) → HasTest a → (b : Api P) × (over : Bool) × (is_over a ≡ ok (b, over)) × HasTest b
  unfolding is_over
  is_over-cases a h =
      let (t, q, keeps) = first_test-cases a h in
      (
        with_first (Tests.is_stream_ready t).0 a,
        (Tests.is_stream_ready t).1 || is_interrupted a,
        rw q refl,
        keeps _,
      )

  -- The wait for the streams of a test ends: after `count` sleeps, no more than the limit, it comes
  -- back within limit + 1 - count further ones, as long as the process has the test that it runs.
  pub await_ready-ends :
      (limit count : ℕ) (rounds : List (PollRound P)) (a : Api P)
      → HasTest a
      → AllKeep rounds
      → count ≤ limit
      → limit < count + length rounds
      → IsAwaited (limit + 1 - count) rounds (await_ready limit count rounds a)
  unfolding await_ready IsAwaited
  await_ready-ends limit count [] a h k c l = absurd (omega arith)
  await_ready-ends limit count (r ∷ rounds) a h k c l =
      let (b, over, e, has) = is_over-cases a h in
      elim (Bool-cases over) [
        | inl o ↦ (b, true, r ∷ rounds, rw (e, o) refl, omega arith)
        | inr o ↦ elim (Bool-cases (ltb limit (count + 1))) [
          | inl t ↦ (r.between b, false, rounds, rw (e, o, t) refl, omega arith)
          | inr t ↦
              let (d, ready, rest, q, used) =
                await_ready-ends limit (count + 1) rounds (r.between b) (k.0 b has) k.1
                  (ground (arith, t)) (omega arith) in
              (d, ready, rest, rw (e, o, t) q, ground (arith, t, used))
        ]
      ]

  -- Nothing happens in a round.
  abbrev pub AllIdle : List (PollRound P) → Type 0
  AllIdle [] = Unit
  AllIdle (r ∷ rounds) = ((a : Api P) → r.between a ≡ a) × AllIdle rounds

  -- How a wait without an end comes out: it has timed out or not.
  abbrev waited : Bool → Api P → List (PollRound P) → Result (Api P × (Bool × List (PollRound P)))
  waited true a rest = ok (a, (false, rest))
  waited false a rest = fault waiting

  -- The wait behind `count` sleeps times out once it has slept more than `limit` times, and has not
  -- come back before that.
  await_ready-idle :
      (limit count : ℕ) (rounds : List (PollRound P)) (a : Api P)
      → is_over a ≡ ok (a, false)
      → AllIdle rounds
      → count ≤ limit
      → (rest : List (PollRound P)) × (await_ready limit count rounds a
          ≡ waited (ltb limit (count + length rounds)) a rest)
  unfolding await_ready
  await_ready-idle limit count [] a n i c =
      ([], rw (n, not_yet limit (count + 0) (omega arith)) refl)
  await_ready-idle limit count (r ∷ rounds) a n i c = elim (Bool-cases (ltb limit (count + 1))) [
    | inl t ↦ (
      rounds,
      rw (n, t, i.0 a, over limit (count + suc (length rounds)) (ground (arith, t))) refl,
    )
    | inr t ↦
        let (rest, q) = await_ready-idle limit (count + 1) rounds a n i.1 (ground (arith, t)) in
        let same : count + 1 + length rounds ≡ count + suc (length rounds) = omega arith in
        (rest, rw (n, t, i.0 a) (q ∙ ap (λ m. waited (ltb limit m) a rest) same))
  ]

  -- A process with a new speed test.
  pub with_new : ℕ → IperfTest P → Api P → Api P
  with_new k t a = record a {
    tests = (k, speed_test (record t { streams = []; is_ready_received = false })) ∷ [];
  }

  waiting_test :
      (k : ℕ) (t : IperfTest P) (a : Api P)
      → (t.config.num_streams ==ℤ pos 0) ≡ false
      → is_interrupted a ≡ false
      → is_over (with_new k t a) ≡ ok (with_new k t a, false)
  unfolding with_new is_over first_test put_first Tests.is_stream_ready Status.is_stream_ready
      remaining
  waiting_test k t a n g = rw (n, g) refl

  -- A client without its key or certificate: Start of its speed test fails, which RunTest does not
  -- see. If nothing happens in any round and the test wants streams, RunTest waits for them: for the
  -- first 10000 rounds it has not come back, and behind them it times out and comes back with the
  -- process unchanged.
  pub run_test-no_key :
      (h : Host P) (last : ℕ → Visit P) (rounds : List (PollRound P)) (k : ℕ) (t : IperfTest P)
      (a : Api P)
      → (h.exists default_key_file && h.exists default_cert_file) ≡ false
      → is_sender_role a.role ≡ true
      → (t.config.num_streams ==ℤ pos 0) ≡ false
      → is_interrupted a ≡ false
      → AllIdle rounds
      → run_test h last rounds (with_new k t a)
        ≡ (if ltb max_timeout (length rounds) then ok (with_new k t a) else fault waiting)
  unfolding run_test with_new first_test put_first Tests.start Control.start
  run_test-no_key h last rounds k t a x s n g i =
      let (rest, q) =
        await_ready-idle max_timeout 0 rounds (with_new k t a) (waiting_test k t a n g) i
          (omega arith) in
      let from_zero : 0 + length rounds ≡ length rounds = omega arith in
      elim (Bool-cases (ltb max_timeout (length rounds))) [
        | inl late ↦ rw (s, x, q, from_zero, late) refl
        | inr early ↦ rw (s, x, q, from_zero, early) refl
      ]
