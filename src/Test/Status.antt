-- ===== src/Test/Status.antt =====
-- example/iperf-bats/iperf_test.cc: what the loops of iperf_bats_api.cc ask a test (IsStreamReady,
-- IsStreamDone, TestFinishState, CheckStreamIntervalReceive), and PrintStreamSendSummary.
use bats_protocol_api.Stream.{Platform, IperfStream, is_connected_state, emit, print_send_summary}
use bats_protocol_api.Test.{
  IperfTest, Moment, each_stream, is_sender, is_stream_done_state, is_receiver, test_done, is_done,
}
use bats_protocol_api.Prelude.{
  List, ℕ, ◌∷◌, ◌+◌, Bool, if◌then◌else◌, not, [], Option, true, ◌==◌, ◌&&◌, some, length, false,
  map, none, ◌%◌,
}
use bats_protocol_api.Prelude.Results.{Result, ◌>>=◌, ◌>>◌, ok, require, division}
use bats_protocol_api.Stream.Report.{
  is_interval_data_received_timeout, snapshot_report, print_interval,
}
use bats_protocol_api.Prelude.Int.{pos_part, ℤ, neg_part, ◌==ℤ◌, ◌-ℤ◌, pos}
use bats_protocol_api.Prelude.Octets.{is_empty}
use bats_protocol_api.Common.{is_reliable_protocol}

module _ {P : Platform} where
  open P.floating use {of_nat, times, less, round, to_int}

  -- The count of streams that are still expected; `none` when a stream fails the test.
  unfoldable pub remaining : (IperfStream P → Bool) → ℤ → List (IperfStream P) → Option ℤ
  remaining test expected [] = some expected
  remaining test expected (s ∷ streams) = elim (test s) [
    | false ↦ none
    | true ↦ remaining test (expected -ℤ pos 1) streams
  ]

  abbrev pub is_connected : IperfStream P → Bool
  is_connected s = is_connected_state s.conn_state

  abbrev pub has_done : IperfStream P → Bool
  has_done s = is_stream_done_state s.state

  -- `is_ready_received_ = true && expected_num_streams == 0` assigns the whole test to the flag.
  unfoldable pub is_stream_ready : IperfTest P → IperfTest P × Bool
  is_stream_ready t = elim (remaining is_connected t.config.num_streams t.streams) [
    | none ↦ (t, false)
    | some left ↦ (record t { is_ready_received = left ==ℤ pos 0 }, left ==ℤ pos 0)
  ]

  unfoldable pub is_stream_done : IperfTest P → Bool
  is_stream_done t =
      if is_empty t.streams
      then true
      else elim (remaining has_done t.config.num_streams t.streams) [
        | none ↦ false
        | some left ↦ left ==ℤ pos 0
      ]

  unfoldable pub print_stream_send_summary : IperfTest P → IperfTest P
  print_stream_send_summary t =
      if is_sender t.config.role && is_reliable_protocol t.config.protocol
      then record t {
        streams = map (λ s. emit (print_send_summary s.sender_report.summary) s) t.streams;
      }
      else t

  -- `passed_ticks_++ > time * resolution`, by the count before it is raised.
  unfoldable pub is_over : IperfTest P → Bool
  is_over t = less (times t.config.time t.config.resolution) (of_nat t.passed_ticks)

  -- The remainder of the raised count by `static_cast<int>(round(interval * resolution))` is zero.
  unfoldable pub is_snapshot_tick : IperfTest P → Result Bool
  is_snapshot_tick t = do
    let ticks = to_int (round (times t.config.interval t.config.resolution))
    let divisor = pos_part ticks + neg_part ticks
    require (not (divisor == 0)) division
    ok (t.passed_ticks % divisor == 0)

  abbrev pub tick : IperfTest P → IperfTest P
  tick t = record t { passed_ticks = t.passed_ticks + 1 }

  interval_receive : ℕ → IperfStream P → IperfStream P
  interval_receive now s =
      let (t, timed_out) = is_interval_data_received_timeout now s in
      if timed_out then print_interval t else t

  unfoldable pub check_stream_interval_receive : Moment P → IperfTest P → Result (IperfTest P)
  unfolding interval_receive
  check_stream_interval_receive m t =
      if not (is_receiver t.config.role) then ok t else if is_over t then ok (tick t) else (do
        at_snapshot ← is_snapshot_tick (tick t)
        ok (
            if at_snapshot
            then record (tick t) { streams = each_stream interval_receive m.time 0 t.streams }
            else tick t))

  -- A stream that is done is dead; any other one takes its snapshot.
  snapshot : ℕ → IperfStream P → IperfStream P
  snapshot now s =
      if has_done s
      then s
      else (let (t, taken) = snapshot_report now s in if taken then print_interval t else t)

  unfoldable pub dead_streams : List (IperfStream P) → ℕ
  dead_streams [] = 0
  dead_streams (s ∷ streams) = (if has_done s then 1 else 0) + dead_streams streams

  unfoldable pub snapshot_streams : Moment P → IperfTest P → IperfTest P × Bool
  unfolding snapshot
  snapshot_streams m t =
      let u = record t { streams = each_stream snapshot m.time 0 t.streams } in
      if dead_streams t.streams == length t.streams
      then (record u { state = test_done }, true)
      else (u, false)

  unfoldable pub test_finish_state : Moment P → IperfTest P → Result (IperfTest P × Bool)
  test_finish_state m t =
      if not (is_sender t.config.role)
      then (do u ← check_stream_interval_receive m t; ok (u, false))
      else if is_done t.state
      then ok (t, true)
      else if is_over t
      then ok (tick t, true)
      else (do
        at_snapshot ← is_snapshot_tick (tick t)
        ok (if at_snapshot then snapshot_streams m (tick t) else (tick t, false)))
