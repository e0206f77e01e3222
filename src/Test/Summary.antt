-- ===== src/Test/Summary.antt =====
-- The exchange of the summaries at the end of a test, from the sender's message to the receiver's
-- reports.
use bats_protocol_api.Stream.{Platform, IperfStream}
use bats_protocol_api.Test.{
  IperfTest, note, send_control, test_exchange_reports, Moment, test_start, test_done, is_done,
}
use bats_protocol_api.Test.Messages.{
  send_test_summary, send_message, summary_size, control_header, serialize_reports, send_ack,
  message_size, acknowledged,
}
use bats_protocol_api.Prelude.Octets.{Octets}
use bats_protocol_api.Prelude.{
  length, ℕ, ◌≡◌, ◌++◌, some, ◌==◌, false, ◌+◌, ◌≤◌, ◌*◌, length-append, ◌∙◌, ap₂, ◌<◌, ◌^◌, drop,
  arith, replicate, ◌-◌, true, append_assoc, ap, drop-append, leb, Option-cases, List, refl, inl,
  inr, if◌then◌else◌, Bool-cases,
}
use bats_protocol_api.Wire.{encode, in_buffer, decode, header_size, ControlHeader}
use bats_protocol_api.Prelude.Results.{ok, fault, out_of_bounds}
use bats_protocol_api.Wire.Laws.{length-encode, decode-encode}
use bats_protocol_api.Test.Exchange.{
  length-serialize_reports, Paired, settle_all, read_reports-settle_all,
}
use bats_protocol_api.Test.Handlers.{
  handle_control_message, handle_action, handle_summary_message, heard_on, read_reports,
}
use bats_protocol_api.Wire.Laws.{InRange}
use bats_protocol_api.Common.{is_reliable_protocol}

module _ {P : Platform} where
  -- What the sender puts on the control channel.
  pub summary_message : IperfTest P → Octets
  summary_message t =
      in_buffer summary_size
        (encode (control_header t.test_id 3 (length t.streams)) ++ serialize_reports t.streams)

  length-summary :
      (t : IperfTest P)
      → length
          (encode (control_header t.test_id 3 (length t.streams)) ++ serialize_reports t.streams)
        ≡ 32 + 32 * length t.streams
  length-summary t =
      let h = control_header t.test_id 3 (length t.streams) in
      length-append (encode h) (serialize_reports t.streams)
      ∙ ap₂ (λ a b. a + b) (length-encode h) (length-serialize_reports t.streams)

  -- With a control channel and an id, SendTestSummary sends its message, and goes on to the exchange
  -- of the reports, when the test has at most 33 streams; with more it writes behind its buffer.
  pub send_test_summary_lem :
      (t : IperfTest P) (conn : ℕ)
      → t.ctrl_chn ≡ some conn
      → (t.test_id == 0) ≡ false
      → send_test_summary t ≡ (
          if leb (length t.streams) 33
          then ok
              (record (note (send_control (summary_message t)) t) { state = test_exchange_reports })
          else fault out_of_bounds)
  unfolding send_test_summary send_message summary_message
  send_test_summary_lem t conn c i =
      let l = length-summary t in
      let b : leb
            (length (
              encode (control_header t.test_id 3 (length t.streams))
              ++ serialize_reports t.streams))
            summary_size
          ≡ leb (length t.streams) 33 =
        rw (l) (ground arith) in
      elim (Bool-cases (leb (length t.streams) 33)) [
        | inl q ↦ rw (c, i, b, q) refl
        | inr q ↦ rw (c, i, b, q) refl
      ]

  in_message :
      (t : IperfTest P)
      → length t.streams ≤ 33
      → t.test_id < 2 ^ 32
      → InRange (control_header t.test_id 3 (length t.streams))
  unfolding control_header
  in_message t few small = record {
    magic_fits = omega arith;
    id_fits = small;
    action_fits = omega arith;
    streams_fit = omega arith;
    param0_fits = omega arith;
    param1_fits = omega arith;
    param2_fits = omega arith;
    param3_fits = omega arith;
  }

  summary_parts :
      (t : IperfTest P)
      → length t.streams ≤ 33
      → t.test_id < 2 ^ 32
      → (rest : Octets) × (decode (summary_message t)
          ≡ some (control_header t.test_id 3 (length t.streams)))
        × (drop header_size (summary_message t) ≡ serialize_reports t.streams ++ rest)
  unfolding summary_message in_buffer
  summary_parts t few small =
      let h = control_header t.test_id 3 (length t.streams) in
      let reports = serialize_reports t.streams in
      let zeros = replicate (summary_size - length (encode h ++ reports)) 0 in
      let whole = append_assoc (encode h) reports zeros in
      (
        zeros,
        ap decode whole ∙ decode-encode h (reports ++ zeros) (in_message t few small),
        ap (λ (b : Octets). drop header_size b) whole
            ∙ drop-append (encode h) (reports ++ zeros) header_size (length-encode h),
      )

  -- The acknowledgement of a test that can send one.
  after_ack : IperfTest P → IperfTest P
  after_ack t =
      record (note (send_control (in_buffer message_size (encode (control_header t.test_id 4 0))))
        t) { state = acknowledged t.state }

  send_ack-after_ack :
      (t : IperfTest P) (conn : ℕ)
      → t.ctrl_chn ≡ some conn
      → (t.test_id == 0) ≡ false
      → send_ack t ≡ ok (after_ack t)
  unfolding send_ack send_message after_ack
  send_ack-after_ack t conn c i = ground (arith, c, i)

  summary_handled :
      (m : Moment P) (h : ControlHeader) (body : Octets) (r : IperfTest P) (conn : ℕ)
      (streams : List (IperfStream P))
      → (h.test_id == r.test_id) ≡ true
      → is_done r.state ≡ false
      → is_reliable_protocol r.config.protocol ≡ true
      → read_reports true m.time h.num_of_streams body r.streams ≡ ok streams
      → r.ctrl_chn ≡ some conn
      → (r.test_id == 0) ≡ false
      → handle_summary_message m h body r ≡ ok (after_ack (record r { streams = streams }))
  unfolding handle_summary_message
  summary_handled m h body r conn streams same going reliable read c i =
      let a = send_ack-after_ack (record r { streams = streams }) conn c i in
      rw (going, same, reliable, read, a) refl

  heard_on-channel : (conn : ℕ) (r : IperfTest P) → (c : ℕ) × ((heard_on conn r).ctrl_chn ≡ some c)
  unfolding heard_on
  heard_on-channel conn r = elim (Option-cases r.ctrl_chn) [
    | inl q ↦ (conn, ground arith)
    | inr (c, q) ↦ (c, ground arith)
  ]

  -- The summary of a sender with at most 33 streams, handled by a receiver that has a stream for each
  -- of the sender's (in the same order, no two with one identifier) and has started, over a reliable
  -- protocol: each of the receiver's streams takes over the bytes, the datagrams and the rate of its
  -- own sender, any further ones stay as they are, and the receiver is done.
  -- The two tests have the same id, which is not zero and fits 32 bits, and the identifiers and
  -- counts of the sender's streams fit 64 bits.
  pub handle_control_message-summary :
      (m : Moment P) (conn : ℕ) (t r : IperfTest P)
      → length t.streams ≤ 33
      → t.test_id < 2 ^ 32
      → (t.test_id == 0) ≡ false
      → r.test_id ≡ t.test_id
      → r.state ≡ test_start
      → is_reliable_protocol r.config.protocol ≡ true
      → Paired t.streams r.streams
      → (r' : IperfTest P) × (handle_control_message m conn (summary_message t) r ≡ ok r')
        × ((r'.streams ≡ settle_all true m.time 0 t.streams r.streams) × (r'.state ≡ test_done))
  unfolding handle_control_message handle_action control_header heard_on after_ack acknowledged
  handle_control_message-summary m conn t r few small named same started reliable paired =
      let (rest, d, b) = summary_parts t few small in
      let (c, q) = heard_on-channel conn r in
      let s = read_reports-settle_all true m.time t.streams r.streams rest paired in
      let done =
        summary_handled m (control_header t.test_id 3 (length t.streams))
          (drop header_size (summary_message t)) (heard_on conn r) c
          (settle_all true m.time 0 t.streams r.streams) (ground arith) (ground arith) reliable
          (rw b s) q (ground arith) in
      let e : (t.test_id == r.test_id) ≡ true = ground arith in
      (
        after_ack
            (record (heard_on conn r) { streams = settle_all true m.time 0 t.streams r.streams }),
        rw (d, e) done,
        (refl, rw (started) refl),
      )
