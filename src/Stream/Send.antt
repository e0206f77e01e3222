-- ===== src/Stream/Send.antt =====
-- example/iperf-bats/iperf_stream.cc: the sending thread, StartSend and SendFIN. Between two rounds
-- other threads may change the stream; within a round they act through the schedules.
use bats_protocol_api.Retry.{offered_again}
use bats_protocol_api.Stream.{emit_again}
use bats_protocol_api.Prelude.{
  ℕ, ◌%◌, Bool, true, false, not, ◌&&◌, Option, some, none, List, [], ◌∷◌, ◌++◌, ◌==◌, leb, ltb,
  if◌then◌else◌, drop,
}
use bats_protocol_api.Prelude.Results.{
  Result, ok, fault, null_pointer, waiting, or_fault, ◌>>=◌, ◌>>◌,
}
use bats_protocol_api.Common.{is_reliable_protocol}
use bats_protocol_api.Retry.{Poll, retry}
use bats_protocol_api.Stream.{
  Platform, IperfStream, Clock, Sending, StreamState, stream_start, stream_done, is_connected_state,
  emit, send_data, print_send_summary,
}
use bats_protocol_api.Stream.Header.{sent_block, interval_data_size}
use bats_protocol_api.Stream.Report.{count_block, serialize_interval}

-- One turn of the loop: the times, the wait for a writable connection, whether the flow shaper
-- holds the block back, and the sending.
pub record Round : Type 0 where
  pub clock : Clock
  pub waits : List Poll
  pub limited : Bool
  pub sending : Sending

-- `while (is_writable_ == false)`: ends when the connection is writable, or when the state or the
-- error flag says so; `none` means that it still waits.
unfoldable pub wait_writable : Bool → List Poll → Option (Unit {0})
wait_writable true polls = some tt
wait_writable false [] = none
wait_writable false (p ∷ polls) =
    let rest = wait_writable p.writable polls in
    if p.halted then some tt else if p.failed then some tt else rest

abbrev pub is_start : StreamState → Bool
is_start stream_start = true
is_start _ = false

module _ {P : Platform} where
  -- The header of the next block. In the first block of a group the last interval follows it.
  unfoldable pub prepare_block : Clock → ℕ → IperfStream P → IperfStream P × ℕ
  prepare_block clock last_grp_id s =
      let r = s.sender_report in
      let group = r.snapshot_cnt % 2 in
      let plain = record s.header {
        seq = r.summary.datagrams;
        time = clock.wall;
        grp_id = group;
        last = 0;
        ack = 0;
        has_interval = if leb r.snapshot_cnt 0 then 0 else s.header.has_interval;
      } in
      if ltb 0 r.snapshot_cnt && not (last_grp_id == group)
      then (
        record s {
          header = record plain { has_interval = 1 };
          body = serialize_interval P.floating r.last_interval ++ drop interval_data_size s.body;
        },
        group,
      )
      else (record s { header = plain }, last_grp_id)

  -- The block counts as sent whatever `send_ok` is in the end.
  unfoldable pub send_block : Round → ℕ → IperfStream P → Result (IperfStream P × ℕ)
  send_block round last_grp_id s = do
    let (t, group) = prepare_block round.clock last_grp_id s
    conn ← or_fault t.data_conn null_pointer
    let again = offered_again round.sending.at_once round.sending.polls
    let u = emit_again again (send_data (sent_block t) false) t
    send_ok ← or_fault (retry round.sending.at_once round.sending.polls) waiting
    ok (record u { sender_report = count_block P.floating u.sender_report u.ideal_length }, group)

  await_and_send : Round → ℕ → IperfStream P → Result (IperfStream P × ℕ)
  unfolding send_block wait_writable
  await_and_send round last_grp_id s = do
    or_fault (wait_writable s.is_writable round.waits) waiting
    if round.limited then ok (s, last_grp_id) else send_block round last_grp_id s

  -- The body of the loop, behind its test.
  unfoldable pub send_round : Round → ℕ → IperfStream P → Result (IperfStream P × ℕ)
  unfolding await_and_send
  send_round round last_grp_id s =
      if s.has_err_in_send
      then ok (record s { has_err_in_send = false; state = stream_done }, last_grp_id)
      else await_and_send round last_grp_id s

  send_fin_block : Clock → Sending → IperfStream P → Result (IperfStream P)
  unfolding count_block sent_block
  send_fin_block clock sending s = do
    let t = record s {
      header = record s.header {
        seq = s.sender_report.summary.datagrams;
        grp_id = s.sender_report.snapshot_cnt % 2;
        time = clock.wall;
        last = 1;
        ack = 0;
        has_interval = 0;
      };
    }
    conn ← or_fault t.data_conn null_pointer
    let again = offered_again sending.at_once sending.polls
    let u = emit_again again (send_data (sent_block t) true) t
    send_ok ← or_fault (retry sending.at_once sending.polls) waiting
    let counted = record u { sender_report = count_block P.floating u.sender_report u.ideal_length }
    ok (if send_ok then counted else u)

  unfoldable pub send_fin : Clock → Sending → IperfStream P → Result (IperfStream P)
  unfolding send_fin_block is_reliable_protocol
  send_fin clock sending s =
      if is_reliable_protocol s.config.protocol
      then send_fin_block clock sending s
      else ok (emit (print_send_summary s.sender_report.summary) s)

  -- The whole thread over the rounds that it gets, then the FIN.
  unfoldable pub send_loop :
      List Round → Clock → Sending → ℕ → IperfStream P → Result (IperfStream P)
  unfolding send_round send_fin
  send_loop [] clock sending last_grp_id s =
      if is_connected_state s.conn_state && is_start s.state
      then fault waiting
      else send_fin clock sending s
  send_loop (round ∷ rounds) clock sending last_grp_id s =
      let next = (do
        (t, group) ← send_round round last_grp_id s
        send_loop rounds clock sending group t) in
      if is_connected_state s.conn_state && is_start s.state then next else send_fin clock sending s

  -- StartSend up to the start of the thread.
  unfoldable pub start_send : ℕ → IperfStream P → IperfStream P
  start_send now s =
      let r = s.sender_report in
      record s {
        sender_report =
            if r.summary.bytes == 0 && r.last_snapshot_time == 0
            then record r { last_snapshot_time = now }
            else r;
        state = stream_start;
      }
