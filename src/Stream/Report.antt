-- ===== src/Stream/Report.antt =====
-- example/iperf-bats/iperf_stream.cc: snapshots of a report, the summaries, and the reports and
-- intervals that a stream sends to its peer. Counters are uint64_t and wrap.
pub mod Accounting
pub mod Exchange
use bats_protocol_api.Prelude.{
  ℕ, ◌+◌, ◌-◌, ◌*◌, ◌%◌, ◌^◌, Bool, true, false, Option, some, none, List, ◌∷◌, ◌++◌, ltb, leb,
  if◌then◌else◌, drop,
}
use bats_protocol_api.Prelude.Int.{ℤ, pos, negsuc, pos_part, ltb_ℤ}
use bats_protocol_api.Prelude.Octets.{Octets, le_octets, read_le}
use bats_protocol_api.Prelude.Results.{Result, ok, fault, out_of_bounds, or_fault, ◌>>=◌}
use bats_protocol_api.Prelude.Floating.{Floating}
use bats_protocol_api.Common.{TestRole, role_sender, role_receiver, TestInterval, TestReport}
use bats_protocol_api.Stream.{
  Platform, Float, StreamState, stream_stop, stream_done, IperfStream, Action, emit,
  print_last_interval, print_send_summary, print_receive_summary,
}

abbrev pub u64_mod : ℕ
u64_mod = 2 ^ 64

abbrev pub sub64 : ℕ → ℕ → ℕ
sub64 a b = (a + u64_mod - b) % u64_mod

-- The int64_t with this bit pattern.
abbrev pub signed64 : ℕ → ℤ
signed64 w = if ltb w (2 ^ 63) then pos w else negsuc (u64_mod - 1 - w)

-- `llabs` of the difference of two times, which lie below 2^63.
abbrev pub time_gap : ℕ → ℕ → ℕ
time_gap a b = if leb b a then a - b else b - a

module _ (F : Floating) where
  open F use {Float, of_nat, literal, times, over, less, round, to_nat, to_int}

  -- The interval since the last snapshot becomes the last interval.
  unfoldable pub snapshot_rx_tx_report : TestReport Float → ℕ → ℕ → TestReport Float
  snapshot_rx_tx_report r current interval =
      let new_bytes = sub64 r.summary.bytes r.last_snapshot.bytes in
      let rate = over (of_nat new_bytes) (over (of_nat interval) (literal 1000 0)) in
      record r {
        last_interval = record r.last_interval {
          bitrate = over (round (times rate (of_nat 100))) (literal 100 0);
          bytes = new_bytes;
          datagrams = sub64 r.summary.datagrams r.last_snapshot.datagrams;
          start_seq = r.last_snapshot.datagrams;
        };
        last_snapshot = record r.last_snapshot {
          bytes = r.summary.bytes;
          datagrams = r.summary.datagrams;
          jitter = r.summary.jitter;
        };
        last_snapshot_time = current;
        snapshot_cnt = r.snapshot_cnt + 1;
      }

  -- One more block of `n` octets was sent or received.
  unfoldable pub count_block : TestReport Float → ℕ → TestReport Float
  count_block r n = record r {
    summary = record r.summary {
      bytes = (r.summary.bytes + n) % u64_mod;
      datagrams = (r.summary.datagrams + 1) % u64_mod;
    };
  }

  -- The rate over all the intervals counted.
  unfoldable pub with_bitrate : TestReport Float → Float → TestReport Float
  with_bitrate r interval = record r {
    summary = record r.summary {
      bitrate = over (of_nat r.summary.bytes) (times (of_nat r.snapshot_cnt) interval);
    };
  }

  unfoldable pub gen_receive_summary :
      TestReport Float → TestReport Float → Float → TestReport Float
  unfolding with_bitrate
  gen_receive_summary sender receiver interval =
      let rated = with_bitrate receiver interval in
      let missing = signed64 (sub64 sender.summary.datagrams receiver.summary.datagrams) in
      let lost = if ltb_ℤ missing (pos 0) then pos 0 else missing in
      record rated {
        summary = record rated.summary {
          lost_datagrams = lost;
          datagrams = sender.summary.datagrams;
          loss = over (of_nat (pos_part lost)) (of_nat sender.summary.datagrams);
        };
      }

  -- bytes, datagrams, start_seq, bitrate * 100
  unfoldable pub serialize_interval : TestInterval Float → Octets
  serialize_interval inter =
      le_octets 8 inter.bytes
      ++ (le_octets 8 inter.datagrams
          ++ (le_octets 8 inter.start_seq
              ++ le_octets 8 (to_nat (times inter.bitrate (of_nat 100)) % u64_mod)))

  unfoldable pub deserialize_interval : Octets → TestInterval Float → Result (TestInterval Float)
  deserialize_interval from fresh = do
    b ← or_fault (read_le 8 from) out_of_bounds
    d ← or_fault (read_le 8 (drop 8 from)) out_of_bounds
    s ← or_fault (read_le 8 (drop 16 from)) out_of_bounds
    r ← or_fault (read_le 8 (drop 24 from)) out_of_bounds
    ok (record fresh {
      bytes = b;
      datagrams = d;
      start_seq = s;
      bitrate = over (of_nat r) (literal 100 0);
    })

  -- `expected_time_point - 50`, in uint64_t
  unfoldable pub earliest_time_point : Float → ℕ → ℕ
  earliest_time_point interval last_snapshot_time =
      sub64 ((last_snapshot_time + to_nat (times interval (of_nat 1000)) % u64_mod) % u64_mod) 50

module _ {P : Platform} where
  open P.floating use {of_nat, literal, times, over, less, to_nat, to_int}

  unfoldable pub serialize_report : IperfStream P → Octets
  serialize_report s =
      let summary = s.sender_report.summary in
      le_octets 8 s.stream_identifier
      ++ (le_octets 8 summary.bytes
          ++ (le_octets 8 summary.datagrams
              ++ le_octets 8 (to_nat (times summary.bitrate (of_nat 100)) % u64_mod)))

  -- The reader stands behind the identifier. The second result is the rest of the buffer.
  unfoldable pub deserialize_report : IperfStream P → Octets → Result (IperfStream P × Octets)
  deserialize_report s from = do
    b ← or_fault (read_le 8 from) out_of_bounds
    d ← or_fault (read_le 8 (drop 8 from)) out_of_bounds
    r ← or_fault (read_le 8 (drop 16 from)) out_of_bounds
    let summary = record s.sender_report.summary {
      bytes = b;
      datagrams = d;
      bitrate = over (of_nat r) (literal 100 0);
    }
    ok (
      record s {
        sender_report = record s.sender_report { summary = summary };
        is_sum_received = true;
      },
      drop 24 from,
    )

  -- An interval is printed only once there is one; before that the printed text is empty.
  print_report_interval : TestReport (Float P) → IperfStream P → IperfStream P
  print_report_interval r s =
      if ltb r.snapshot_cnt 1
      then s
      else emit (print_last_interval r.snapshot_cnt r.last_interval) s

  print_interval_as : TestRole → IperfStream P → IperfStream P
  print_interval_as role_sender s = print_report_interval s.sender_report s
  print_interval_as role_receiver s = print_report_interval s.receiver_report s
  print_interval_as _ s = s

  unfoldable pub print_interval : IperfStream P → IperfStream P
  unfolding print_interval_as print_report_interval
  print_interval s = print_interval_as s.config.role s

  unfoldable pub print_send_recv_summary : IperfStream P → IperfStream P
  print_send_recv_summary s =
      if s.is_sum_printed
      then s
      else emit (print_send_summary s.sender_report.summary) (
          emit (print_receive_summary s.receiver_report.summary)
            (record s { is_sum_printed = true }))

  -- A snapshot of the sending side, where at least 95% of an interval has passed.
  unfoldable pub snapshot_report : ℕ → IperfStream P → IperfStream P × Bool
  unfolding snapshot_rx_tx_report
  snapshot_report current s =
      let r = s.sender_report in
      let gap = time_gap current r.last_snapshot_time in
      let least = to_int (times (times s.config.interval (of_nat 1000)) (literal 95 2)) in
      if ltb_ℤ (pos gap) least
      then (s, false)
      else (record s { sender_report = snapshot_rx_tx_report P.floating r current gap }, true)

  unfoldable pub is_interval_data_received_timeout : ℕ → IperfStream P → IperfStream P × Bool
  unfolding snapshot_rx_tx_report earliest_time_point
  is_interval_data_received_timeout current s =
      let r = s.receiver_report in
      if ltb current (earliest_time_point P.floating s.config.interval r.last_snapshot_time)
      then (s, false)
      else (
        record s {
          receiver_report =
              snapshot_rx_tx_report P.floating r current (sub64 current r.last_snapshot_time);
        },
        true,
      )

  finish_sender : StreamState → IperfStream P → IperfStream P
  unfolding with_bitrate
  finish_sender stream_done s = s
  finish_sender _ s = record s {
    state = stream_stop;
    sender_report = with_bitrate P.floating s.sender_report s.config.interval;
  }

  -- The last snapshot, if the test's time has room for one more.
  force_snapshot : ℕ → IperfStream P → IperfStream P
  unfolding snapshot_rx_tx_report print_interval
  force_snapshot current s =
      let r = s.receiver_report in
      if less (of_nat r.snapshot_cnt) (over s.config.time s.config.interval)
      then print_interval (record s {
        receiver_report =
            snapshot_rx_tx_report P.floating r current (time_gap current r.last_snapshot_time);
      })
      else s

  finish_receiver : ℕ → IperfStream P → IperfStream P
  unfolding force_snapshot gen_receive_summary
  finish_receiver current s =
      let t = force_snapshot current (record s { state = stream_stop }) in
      record t {
        receiver_report =
            gen_receive_summary P.floating t.sender_report t.receiver_report t.config.interval;
      }

  finish_as : TestRole → ℕ → IperfStream P → IperfStream P
  unfolding finish_sender finish_receiver
  finish_as role_sender current s = finish_sender s.state s
  finish_as role_receiver current s = finish_receiver current s
  finish_as _ current s = s

  unfoldable pub finish_report : ℕ → IperfStream P → IperfStream P
  unfolding finish_as
  finish_report current s = finish_as s.config.role current s
