-- ===== src/Examples/Streams.antt =====
-- Tests of the streams: blocks, arrivals, reports and callbacks.
use bats_protocol_api.Retry.{offered_again}
use bats_protocol_api.Prelude.{suc}
use bats_protocol_api.Retry.{retry, Poll}
use bats_protocol_api.Stream.Blocks.{IsFilled, send_block-valid}
use bats_protocol_api.Stream.Send.{prepare_block, Round, send_block}
use bats_protocol_api.Prelude.{
  List, ℕ, false, ◌++◌, replicate, [], ◌∷◌, ◌≡◌, true, ◌+◌, arith, some, ◌%◌, refl, ◌≤◌, Bool, ◌-◌,
  none, drop, length,
}
use bats_protocol_api.Prelude.Octets.{read_le, le_octets, Octets}
use bats_protocol_api.Stream.Report.{
  deserialize_interval, count_block, serialize_report, u64_mod, gen_receive_summary,
}
use bats_protocol_api.Stream.Report.Accounting.{
  Entry, Counts, reported, block, cut, pending, run, traffic, reported-traffic,
  gen_receive_summary-lost,
}
use bats_protocol_api.Examples.{stream_with, clock, report, sending, platform, header}
use bats_protocol_api.Prelude.Floating.{thousandths}
use bats_protocol_api.Stream.Header.{
  sent_block, encode_header, iperf_char, validate_received_data, decode_header,
}
use bats_protocol_api.Prelude.Results.{ok, fault}
use bats_protocol_api.Stream.{send_data, IperfStream, emit}
use bats_protocol_api.Stream.Report.Exchange.{read_le-serialize_report}
use bats_protocol_api.Stream.Receive.{
  reset_seq_record, has_new_grp_id, on_received_interval_data, on_received_fin,
}
use bats_protocol_api.Stream.Control.{
  connection_callback, Callback, start_connecting, max_connect_retry,
}
use bats_protocol_api.Stream.Control.Retries.{is_writable-callbacks, callbacks, connects-callbacks}
use bats_protocol_api.Stream.Receive.Keeps.{connects}
use bats_protocol_api.Stream.Arrival.{
  update_received, check_data, count_arrival, handle_block, identify, on_fin_ack, on_fin,
  on_interval, update_jitter,
}
use bats_protocol_api.Stream.Arrival.Frame.{Arrived, update_received-Arrived}
use bats_protocol_api.Prelude.Int.{pos}
use bats_protocol_api.Connection.{connection_failed, connection_buffer_full}

abbrev waiting_poll : Poll
waiting_poll = record { halted = false; failed = false; writable = false; accepted = true }

abbrev good_poll : Poll
good_poll = record { halted = false; failed = false; writable = true; accepted = true }

filled : IsFilled (stream_with 7)
filled = record {
  area = replicate 32 iperf_char;
  size = 8;
  has_magic = refl;
  area_length = refl;
  body_filled = refl;
  ideal_least = omega arith;
  ideal_most = omega arith;
}

abbrev round : Round
round = record { clock = clock; waits = []; limited = false; sending = sending }

after_block : IperfStream platform × ℕ
unfolding prepare_block count_block sent_block encode_header le_octets
after_block = (
  record (emit (send_data (sent_block (prepare_block clock 0 (stream_with 7)).0) false)
      (prepare_block clock 0 (stream_with 7)).0) {
        sender_report = count_block thousandths report 76;
      },
  0,
)

sends_block : send_block round 0 (stream_with 7) ≡ ok after_block
unfolding send_block after_block prepare_block count_block sent_block retry offered_again
sends_block = refl

send_block-valid_example :
    (block : Octets) × (after_block.0.calls
      ≡ replicate (suc (offered_again sending.at_once sending.polls)) (send_data block false) ++ [])
    × (validate_received_data block ≡ ok true)
    × IsFilled after_block.0
send_block-valid_example =
    send_block-valid round 0 (stream_with 7) {r = after_block} filled sends_block

deserialize_report_example : read_le 8 (serialize_report (stream_with 7) ++ (5 ∷ [])) ≡ some 7
deserialize_report_example = read_le-serialize_report (stream_with 7) (5 ∷ []) (omega arith)

abbrev entries : List Entry
entries = block 100 ∷ block 50 ∷ cut 10 10 ∷ block 7 ∷ []

counts : Counts thousandths report
counts = record { bytes_fit = omega arith; snapshot_fits = omega arith }

reported-traffic_example :
    (reported thousandths report entries + pending thousandths (run thousandths report entries))
      % u64_mod
    ≡ (traffic thousandths entries + pending thousandths report) % u64_mod
reported-traffic_example = reported-traffic thousandths entries report counts

gen_receive_summary-lost_example :
    let r = gen_receive_summary thousandths report report 1000 in
    (r.summary.lost_datagrams ≡ pos (2 - 2)) × (r.summary.datagrams ≡ 2) × (r.summary.bytes ≡ 4096)
gen_receive_summary-lost_example =
    gen_receive_summary-lost thousandths report report 1000 (omega arith) (omega arith)

abbrev failing : Callback
failing = record {
  event = connection_failed;
  conn = 4;
  payload = none;
  length = 0;
  ideal = 100;
  clock = clock;
  sending = sending;
}

abbrev full : Callback
full = record failing { event = connection_buffer_full }

retried : IperfStream platform
unfolding connection_callback
retried = elim (callbacks (failing ∷ full ∷ []) (stream_with 7)) [
  | ok t ↦ t
  | fault e ↦ stream_with 7
]

runs_callbacks : callbacks (failing ∷ full ∷ []) (stream_with 7) ≡ ok retried
unfolding retried callbacks connection_callback start_connecting
runs_callbacks = refl

connects-callbacks_example :
    (connects retried.calls ≡ connects (stream_with 7).calls + retried.connect_retry_cnt)
    × (connects retried.calls ≤ connects (stream_with 7).calls + max_connect_retry)
connects-callbacks_example =
    connects-callbacks (failing ∷ full ∷ []) (stream_with 7) {t = retried} runs_callbacks refl

is_writable-callbacks_example : retried.is_writable ≡ true
is_writable-callbacks_example =
    is_writable-callbacks (failing ∷ full ∷ []) (stream_with 7) {t = retried} runs_callbacks refl

-- Behind the first octet of a block.
arriving : Octets
unfolding encode_header le_octets
arriving = drop 1 (encode_header header) ++ replicate 36 iperf_char

after_arrival : IperfStream platform × Bool
after_arrival = elim (update_received clock sending (some (0xd8 ∷ arriving)) (stream_with 7)) [
  | ok t ↦ t
  | fault e ↦ (stream_with 7, false)
]

receives : update_received clock sending (some (0xd8 ∷ arriving)) (stream_with 7) ≡ ok after_arrival
unfolding after_arrival update_received arriving decode_header read_le check_data count_arrival
    validate_received_data handle_block identify on_fin_ack on_fin on_interval update_jitter
    has_new_grp_id on_received_interval_data on_received_fin count_block deserialize_interval
    reset_seq_record
receives = refl

update_received_example : Arrived (length (0xd8 ∷ arriving)) (stream_with 7) after_arrival.0
update_received_example =
    update_received-Arrived clock sending 0xd8 arriving (stream_with 7) {r = after_arrival} receives
