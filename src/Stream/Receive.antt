-- ===== src/Stream/Receive.antt =====
-- example/iperf-bats/iperf_stream.cc: a block arrives. UpdateReceived and what it calls.
pub mod Keeps
use bats_protocol_api.Retry.{offered_again}
use bats_protocol_api.Stream.{emit_again}
use bats_protocol_api.Prelude.{
  ℕ, zero, suc, ◌+◌, ◌-◌, ◌%◌, ◌^◌, Bool, true, false, not, ◌&&◌, some, none, List, [], ◌∷◌, ◌==◌,
  ltb, leb, if◌then◌else◌,
}
use bats_protocol_api.Prelude.Int.{ℤ, pos, negsuc, ltb_ℤ}
use bats_protocol_api.Prelude.Octets.{Octets}
use bats_protocol_api.Prelude.Results.{
  Result, ok, assertion, null_pointer, waiting, require, or_fault, ◌>>=◌, ◌>>◌,
}
use bats_protocol_api.Prelude.Floating.{Floating}
use bats_protocol_api.Common.{TestRole, role_receiver, TestInterval}
use bats_protocol_api.Retry.{retry}
use bats_protocol_api.Stream.{
  Platform, Float, IperfStream, Clock, Sending, stream_done, emit, send_data, print_last_interval,
}
use bats_protocol_api.Stream.Header.{sent_block}
use bats_protocol_api.Stream.Report.{
  sub64, signed64, time_gap, u64_mod, count_block, snapshot_rx_tx_report, deserialize_interval,
  finish_report,
}

abbrev pub iperf_stream_seq_reorder_threshold : ℕ
iperf_stream_seq_reorder_threshold = 128

-- The `int` with these low 32 bits.
abbrev pub signed32 : ℕ → ℤ
signed32 w = let low = w % 2 ^ 32 in if ltb low (2 ^ 31) then pos low else negsuc (2 ^ 32 - 1 - low)

abbrev pub abs_ℤ : ℤ → ℕ
abs_ℤ (pos n) = n
abs_ℤ (negsuc n) = suc n

unfoldable pub default_interval : (F : Floating) → TestInterval F.Float
default_interval F = record {
  start_seq = 0;
  bytes = 0;
  datagrams = 0;
  lost_datagrams = pos 0;
  bitrate = F.literal 0 0;
  jitter = F.literal 0 0;
  loss = F.literal 0 0;
}

module _ (P : Platform) where
  -- The recorded numbers among `count` ones from `i` on.
  unfoldable pub recorded_from : P.Recorder → ℕ → ℕ → List ℕ
  recorded_from r zero i = []
  recorded_from r (suc count) i =
      let rest = recorded_from r count (suc i) in if P.has r i then i ∷ rest else rest

  unfoldable pub record_all : P.Recorder → List ℕ → P.Recorder
  record_all r [] = r
  record_all r (i ∷ is) = record_all (P.record_seq r i) is

  -- `for (i = start; i <= MaxSeqRecorded(); i++)`, for a maximum below 2^64 - 1; then Reset.
  unfoldable pub keep_from : P.Recorder → ℕ → P.Recorder
  unfolding recorded_from record_all
  keep_from r start = record_all (P.reset r) (recorded_from r (P.max_seq r + 1 - start) start)

module _ {P : Platform} where
  open P.floating use {of_nat, literal, plus, times, over, to_int}

  unfoldable pub reset_seq_record : IperfStream P → IperfStream P
  reset_seq_record s = record s { recorder = keep_from P s.recorder s.seq_of_last_changed_grp_id }

  -- Groups alternate; a change counts only beyond the reordering threshold.
  unfoldable pub has_new_grp_id : ℕ → ℕ → IperfStream P → IperfStream P × Bool
  has_new_grp_id flag seq s = elim s.last_grp_id [
    | none ↦ (record s { last_grp_id = some flag }, true)
    | some group ↦
        if not (group == flag)
          && P.is_less_than_in_half_ring
              ((s.seq_of_last_changed_grp_id + iperf_stream_seq_reorder_threshold) % u64_mod) seq
        then (record s { last_grp_id = some flag }, true)
        else (s, false)
  ]

  clear_jitter : IperfStream P → IperfStream P
  clear_jitter s = record s { diffs = []; is_first_jitter_calculation = true }

  -- The part that takes the snapshot and prints it.
  report_interval : TestInterval (Float P) → ℕ → ℕ → ℕ → IperfStream P → IperfStream P
  report_interval received actual current gap s =
      let r = snapshot_rx_tx_report P.floating s.receiver_report current gap in
      let lost = sub64 received.datagrams actual in
      let last = record r.last_interval {
        start_seq = received.start_seq;
        lost_datagrams = signed64 lost;
        loss = over (of_nat lost) (of_nat received.datagrams);
      } in
      emit (print_last_interval r.snapshot_cnt last)
        (record s { receiver_report = record r { last_interval = last } })

  take_interval : Clock → Octets → IperfStream P → Result (IperfStream P)
  unfolding clear_jitter report_interval reset_seq_record
  take_interval clock bytes s = do
    let gap = time_gap clock.monotonic s.receiver_report.last_snapshot_time
    received ← deserialize_interval P.floating bytes (default_interval P.floating)
    let end = (received.start_seq + received.datagrams) % u64_mod
    let actual = P.recorded_num_in_range s.recorder received.start_seq end
    require (leb actual received.datagrams) assertion
    let t = reset_seq_record (record s { seq_of_last_changed_grp_id = end })
    let least = to_int (times (times s.config.interval (of_nat 1000)) (literal 9 1))
    ok (
        if ltb_ℤ (pos gap) least
        then clear_jitter t
        else clear_jitter (report_interval received actual clock.monotonic gap t))

  interval_as : TestRole → Clock → Octets → IperfStream P → Result (IperfStream P)
  unfolding take_interval
  interval_as role_receiver clock bytes s = take_interval clock bytes s
  interval_as _ clock bytes s = ok s

  unfoldable pub on_received_interval_data : Clock → Octets → IperfStream P → Result (IperfStream P)
  unfolding interval_as
  on_received_interval_data clock bytes s = interval_as s.config.role clock bytes s

  -- The header of the answer to a FIN.
  unfoldable pub fin_ack_header : IperfStream P → IperfStream P
  fin_ack_header s = record s {
    header = record s.header {
      seq = s.sender_report.summary.datagrams;
      last = 1;
      ack = 1;
      has_interval = 0;
    };
  }

  unfoldable pub fin_answered : Clock → Bool → IperfStream P → IperfStream P
  unfolding count_block finish_report
  fin_answered clock send_ok s =
      let counted = record s {
        sender_report = count_block P.floating s.sender_report s.ideal_length;
      } in
      record (finish_report clock.monotonic (if send_ok then counted else s)) {
        is_fin_received = true;
        state = stream_done;
      }

  unfoldable pub on_received_fin : Clock → Sending → IperfStream P → Result (IperfStream P)
  on_received_fin clock sending s = do
    let t = fin_ack_header s
    conn ← or_fault t.data_conn null_pointer
    send_ok ← or_fault (retry sending.at_once sending.polls) waiting
    let again = offered_again sending.at_once sending.polls
    ok (fin_answered clock send_ok (emit_again again (send_data (sent_block t) true) t))
