-- ===== src/Api/Polling.antt =====
-- example/iperf-bats/iperf_bats_api.cc: RunServer, RunTest and the loops that poll the tests, and
-- the main function of iperf.cc. A loop sleeps at each round; a schedule says what the callbacks
-- and other threads do meanwhile.
pub mod Releasing
pub mod Ending
use bats_protocol_api.Prelude.Octets.{is_empty}
use bats_protocol_api.Api.Tests
use bats_protocol_api.Api.Process.{
  note, start_listen, Host, Api, init_from_args, sigint, stop_all, new_api,
}
use bats_protocol_api.Stream.{Platform}
use bats_protocol_api.Prelude.Octets.{Octets, codes}
use bats_protocol_api.Api.Tests.{set_role, ApiTest, Visit, print_stream_send_summary, get_state}
use bats_protocol_api.Prelude.{
  Bool, List, ℕ, if◌then◌else◌, ◌∷◌, ◌==◌, [], not, ◌++◌, ◌||◌, suc, true, map, false, ltb, length,
  ◌+◌, zero,
}
use bats_protocol_api.Prelude.Results.{Result, ◌>>=◌, ok, fault, out_of_bounds, waiting}
use bats_protocol_api.Common.{
  TestRole, role_sender, role_file_sender, is_sender_role, is_receiver_role, role_receiver,
  role_file_receiver,
}
use bats_protocol_api.Test.{is_done}
use bats_protocol_api.Common.Address.{read_ip_address}

-- One round: the changes during the sleep, and what the calls of the tests find behind it.
pub record PollRound (P : Platform) : Type 0 where
  pub between : Api P → Api P
  pub visit : ℕ → Visit P

-- A finished test is kept for a while; `released` has those that were let go, the last one first.
pub record Receiving (P : Platform) : Type 0 where
  pub api : Api P
  pub dying : List (ApiTest P × ℕ)
  pub released : List (ApiTest P)

abbrev pub max_wait_time : ℕ
max_wait_time = 15

-- `max_timeout_cnt`, in milliseconds
abbrev pub max_timeout : ℕ
max_timeout = 10000

abbrev pub default_key_file : Octets
default_key_file = codes "/etc/bats-protocol/server.key"

abbrev pub default_cert_file : Octets
default_cert_file = codes "/etc/bats-protocol/server.cert"

module _ {P : Platform} where
  abbrev pub is_interrupted : Api P → Bool
  is_interrupted a = a.stop_signal == sigint

  -- `GetState() == TEST_DONE && IsStreamDone()`
  unfoldable pub is_finished : ApiTest P → ApiTest P × Bool
  is_finished t = if is_done (get_state t) then Tests.is_stream_done t else (t, false)

  -- One test: it is finished, or it is logged, which asks IsStreamDone once more.
  unfoldable pub poll_test : Visit P → ApiTest P → Result (ApiTest P × Bool)
  poll_test v t = do
    (u, over) ← Tests.test_finish_state v t
    let (w, finished) = is_finished u
    if finished
        then (do x ← Tests.try_print_summary w; ok (x, true))
        else ok ((Tests.is_stream_done w).0, false)

  abbrev pub sorted_in :
      ℕ
      → ApiTest P × Bool
      → List (ℕ × ApiTest P) × List (ApiTest P)
      → List (ℕ × ApiTest P) × List (ApiTest P)
  sorted_in k (u, true) (kept, finished) = (kept, u ∷ finished)
  sorted_in k (u, false) (kept, finished) = ((k, u) ∷ kept, finished)

  -- The walk over the table: the tests that stay in it, and those that are finished.
  unfoldable pub poll_tests :
      (ℕ → Visit P) → List (ℕ × ApiTest P) → Result (List (ℕ × ApiTest P) × List (ApiTest P))
  poll_tests v [] = ok ([], [])
  poll_tests v ((k, t) ∷ tests) = do
    polled ← poll_test (v k) t
    others ← poll_tests v tests
    ok (sorted_in k polled others)

  -- A finished test is let go at once without a control channel, and else at its twelfth round.
  unfoldable pub age : Bool → List (ApiTest P × ℕ) → List (ApiTest P × ℕ)
  age connected [] = []
  age connected ((t, n) ∷ dying) =
      if not connected || ltb 10 n then age connected dying else (t, n + 1) ∷ age connected dying

  unfoldable pub let_go : Bool → List (ApiTest P × ℕ) → List (ApiTest P)
  let_go connected [] = []
  let_go connected ((t, n) ∷ dying) =
      if not connected || ltb 10 n then t ∷ let_go connected dying else let_go connected dying

  unfoldable pub receiver_round : PollRound P → Receiving P → Result (Receiving P)
  receiver_round r s = do
    let a = r.between s.api
    (kept, finished) ← poll_tests r.visit a.tests
    let dying = s.dying ++ map (λ t. (t, 0)) finished
    ok (record {
      api = record a { tests = kept };
      dying = age a.is_ctrl_chn_connected dying;
      released = let_go a.is_ctrl_chn_connected dying ++ s.released;
    })

  -- `last` is for the StopAll behind the loop.
  unfoldable pub receiver_loop :
      (ℕ → Visit P) → List (PollRound P) → Receiving P → Result (Receiving P)
  receiver_loop last [] s =
      if is_interrupted s.api
      then (do b ← stop_all last s.api; ok (record s { api = b }))
      else fault waiting
  receiver_loop last (r ∷ rounds) s =
      let next = (do t ← receiver_round r s; receiver_loop last rounds t) in
      if is_interrupted s.api then (do b ← stop_all last s.api; ok (record s { api = b })) else next

  unfoldable pub run_server : Host P → (ℕ → Visit P) → List (PollRound P) → Api P → Result (Api P)
  run_server h last rounds a = if not (is_receiver_role a.role) then ok a else (do
    let address = read_ip_address h.interfaces a.interface_name
    let b = note (start_listen address a.server_listen_port) a
    s ← receiver_loop last rounds (record { api = b; dying = []; released = [] })
    ok s.api)

  -- `test_tbl_.begin()->second`: the table of a sender has one test.
  unfoldable pub first_test : Api P → Result (ApiTest P)
  first_test a = elim a.tests [ [] ↦ fault out_of_bounds | entry ∷ tests ↦ ok entry.1 ]

  unfoldable pub put_first : ApiTest P → List (ℕ × ApiTest P) → List (ℕ × ApiTest P)
  put_first t [] = []
  put_first t (entry ∷ tests) = (entry.0, t) ∷ tests

  abbrev pub with_first : ApiTest P → Api P → Api P
  with_first t a = record a { tests = put_first t a.tests }

  -- Until the test says that the sending is over; the result is the schedule that is left.
  unfoldable pub send_phase : List (PollRound P) → Api P → Result (Api P × List (PollRound P))
  send_phase [] a = if is_interrupted a then ok (a, []) else fault waiting
  send_phase (r ∷ rounds) a =
      let next = (do
        let b = r.between a
        t ← first_test b
        (u, over) ← Tests.test_finish_state (r.visit 0) t
        if over
            then (do x ← Tests.on_sent_finished (r.visit 0) u; ok (with_first x b, rounds))
            else send_phase rounds (with_first u b)) in
      if is_interrupted a then ok (a, r ∷ rounds) else next

  -- At most `left` waits for the end of the test; the result is how many were left.
  unfoldable pub await_done : ℕ → List (PollRound P) → Api P → Result (Api P × ℕ)
  await_done zero rounds a = ok (a, 0)
  await_done (suc left) [] a = fault waiting
  await_done (suc left) (r ∷ rounds) a =
      let next = (do
        t ← first_test a
        let (u, finished) = is_finished t
        if finished
            then ok (with_first u a, suc left)
            else await_done left rounds (r.between (with_first (Tests.is_stream_done u).0 a))) in
      if is_interrupted a then ok (a, suc left) else next

  unfoldable pub print_timeout : ℕ → Api P → Result (Api P)
  print_timeout left a = do
    t ← first_test a
    let (u, finished) = Tests.is_stream_done t
    ok (
        if not (left == 0)
        then a
        else if finished
        then with_first u a
        else with_first (print_stream_send_summary u) a)

  unfoldable pub sender_loop : (ℕ → Visit P) → List (PollRound P) → Api P → Result (Api P)
  sender_loop last rounds a = do
    t ← first_test a
    (b, rest) ← send_phase rounds a
    (c, left) ← await_done max_wait_time rest b
    d ← print_timeout left c
    stop_all last d

  -- One test of the wait: whether it is over, because the streams are ready or by a signal.
  unfoldable pub is_over : Api P → Result (Api P × Bool)
  is_over a = do
    t ← first_test a
    let (u, ready) = Tests.is_stream_ready t
    ok (with_first u a, ready || is_interrupted a)

  -- The wait after `count` sleeps; the result says that it did not time out, and what is left of
  -- the schedule.
  unfoldable pub await_ready :
      ℕ → ℕ → List (PollRound P) → Api P → Result (Api P × (Bool × List (PollRound P)))
  await_ready limit count [] a = do
    (b, over) ← is_over a
    if over then ok (b, (true, [])) else fault waiting
  await_ready limit count (r ∷ rounds) a = do
    (b, over) ← is_over a
    let next = await_ready limit (count + 1) rounds (r.between b)
    if over
        then ok (b, (true, r ∷ rounds))
        else if ltb limit (count + 1)
        then ok (r.between b, (false, rounds))
        else next

  -- What Start says is not asked for.
  unfoldable pub run_test : Host P → (ℕ → Visit P) → List (PollRound P) → Api P → Result (Api P)
  run_test h last rounds a =
      if not (is_sender_role a.role) || not (length a.tests == 1) then ok a else (do
        t ← first_test a
        let (u, started) = Tests.start (h.exists default_key_file) (h.exists default_cert_file) t
        (b, (ready, rest)) ← await_ready max_timeout 0 rounds (with_first u a)
        if ready then sender_loop last rest b else ok b)

  run_as : TestRole → Host P → (ℕ → Visit P) → List (PollRound P) → Api P → Result (Api P)
  run_as role_sender h last rounds a = run_test h last rounds a
  run_as role_file_sender h last rounds a = run_test h last rounds a
  run_as role_receiver h last rounds a = run_server h last rounds a
  run_as role_file_receiver h last rounds a = run_server h last rounds a
  run_as _ h last rounds a = ok a

-- iperf.cc: main. The signal callback holds a pointer to the process, which holds the callback, so
-- that the destructor and its StopAll run only where InitFromArgs returned before it gave the callback
-- away, for a command line without arguments.
unfoldable pub main :
    {P : Platform} → Host P → List Octets → (ℕ → Visit P) → List (PollRound P) → Result (Api P)
unfolding run_as
main {P} h args last rounds = do
  (a, role) ← init_from_args h args (new_api P)
  b ← run_as role h last rounds a
  if is_empty args then stop_all last b else ok b
