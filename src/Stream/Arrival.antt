-- ===== src/Stream/Arrival.antt =====
-- example/iperf-bats/iperf_stream.cc: UpdateReceived, the handler of every block that arrives.
pub mod Frame
use bats_protocol_api.Prelude.{
  ℕ, Bool, true, false, not, ◌&&◌, ◌||◌, Option, some, none, [], ◌∷◌, ◌==◌, if◌then◌else◌, drop,
  length,
}
use bats_protocol_api.Prelude.Int.{pos, ◌-ℤ◌, ◌==ℤ◌}
use bats_protocol_api.Prelude.Octets.{Octets}
use bats_protocol_api.Prelude.Results.{Result, ok, fault, exit_failure, require, ◌>>=◌, ◌>>◌}
use bats_protocol_api.Prelude.Floating.{Floating}
use bats_protocol_api.Stream.{
  Platform, IperfStream, TestHeader, Clock, Sending, stream_done, emit, print_send_summary,
}
use bats_protocol_api.Stream.Header.{decode_header, validate_received_data, test_header_size}
use bats_protocol_api.Stream.Report.{sub64, count_block}
use bats_protocol_api.Stream.Receive.{
  signed32, abs_ℤ, has_new_grp_id, on_received_interval_data, on_received_fin,
}

unfoldable pub smoothed : (F : Floating) → Bool → ℕ → F.Float → F.Float
smoothed F true diff jitter = F.of_nat diff
smoothed F false diff jitter =
    F.over (F.plus (F.times (F.literal 15 0) jitter) (F.of_nat diff)) (F.literal 16 0)

module _ {P : Platform} where
  -- The first octets start the clock of the first interval.
  unfoldable pub count_arrival : ℕ → ℕ → IperfStream P → IperfStream P
  count_arrival now n s =
      let r = s.receiver_report in
      let started = if r.summary.bytes == 0 then record r { last_snapshot_time = now } else r in
      record s { receiver_report = count_block P.floating started n }

  -- Corrupt data ends the process, unless the mode is BRCTP.
  unfoldable pub check_data : Octets → IperfStream P → Result (Unit {0})
  check_data block s =
      if s.config.protocol ==ℤ pos 2
      then ok tt
      else do valid ← validate_received_data block; require valid exit_failure

  -- The first block names the stream, and must be the first sent where the mode is reliable.
  unfoldable pub identify : TestHeader → IperfStream P → Result (IperfStream P)
  identify h s =
      if s.stream_identifier == 0
      then (if not (h.seq == 0) && (s.config.protocol ==ℤ pos 1 || s.config.protocol ==ℤ pos 10)
          then fault exit_failure
          else ok (record s { stream_identifier = h.stream_identifier }))
      else ok s

  unfoldable pub on_fin_ack : TestHeader → IperfStream P → IperfStream P
  on_fin_ack h s =
      if h.last == 1 && h.ack == 1
      then emit (print_send_summary s.sender_report.summary)
          (record s { is_fin_acked = true; state = stream_done })
      else s

  unfoldable pub on_fin : Clock → Sending → TestHeader → IperfStream P → Result (IperfStream P)
  on_fin clock sending h s =
      if h.last == 1 && h.ack == 0 then on_received_fin clock sending s else ok s

  unfoldable pub on_interval : Clock → TestHeader → Octets → IperfStream P → Result (IperfStream P)
  on_interval clock h block s =
      let (t, changed) = has_new_grp_id h.grp_id h.seq s in
      if changed && h.has_interval == 1
      then on_received_interval_data clock (drop test_header_size block) t
      else ok t

  -- The change of the transit time between two blocks, smoothed.
  unfoldable pub update_jitter : ℕ → ℕ → IperfStream P → IperfStream P
  update_jitter wall sent_at s =
      let diff = signed32 (sub64 wall sent_at) in
      elim s.diffs [
        | [] ↦ record s { diffs = diff ∷ [] }
        | last_diff ∷ older ↦
            let r = s.receiver_report in
            let change = abs_ℤ (diff -ℤ last_diff) in
            record s {
              receiver_report = record r {
                summary = record r.summary {
                  jitter =
                      smoothed P.floating s.is_first_jitter_calculation change r.summary.jitter;
                };
              };
              is_first_jitter_calculation = false;
              diffs = diff ∷ older;
            }
      ]

  unfoldable pub handle_block :
      Clock → Sending → Octets → TestHeader → IperfStream P → Result (IperfStream P × Bool)
  handle_block clock sending block h s = do
    t ← identify h s
    u ← on_fin clock sending h (on_fin_ack h t)
    v ← on_interval clock h block u
    ok (update_jitter clock.wall h.time v, true)

  -- `none` is a null pointer. The block's length is the `length` of the call.
  unfoldable pub update_received :
      Clock → Sending → Option Octets → IperfStream P → Result (IperfStream P × Bool)
  update_received clock sending none s = ok (s, false)
  update_received clock sending (some []) s = ok (s, false)
  update_received clock sending (some (b ∷ rest)) s = do
    let block = b ∷ rest
    let t = count_arrival clock.monotonic (length block) s
    h ← decode_header block
    check_data block t
    handle_block clock sending block h (record t { recorder = P.record_seq t.recorder h.seq })
