-- ===== src/Test/Messages.antt =====
-- example/iperf-bats/iperf_test.cc: the messages that a test sends on its control channel
-- (SendTestSummary, SendTestParameters, SendAck, SendTestReady).
use bats_protocol_api.Prelude.{
  ℕ, List, ◌∷◌, Bool, not, ◌++◌, length, ◌==◌, [], none, some, false, leb, true,
}
use bats_protocol_api.Stream.{Platform, IperfStream}
use bats_protocol_api.Wire.{ControlHeader, encode, in_buffer}
use bats_protocol_api.Prelude.Octets.{Octets}
use bats_protocol_api.Test.{
  TestState, IperfTest, test_start, test_done, test_none, test_exchange_parameters, note,
  send_control, test_exchange_reports,
}
use bats_protocol_api.Prelude.Results.{
  Result, ◌>>◌, ◌>>=◌, require, ok, assertion, or_fault, null_pointer, out_of_bounds,
}
use bats_protocol_api.Common.{magic_code}
use bats_protocol_api.Stream.Report.{serialize_report}
use bats_protocol_api.Common.Config.{serialize}

-- The header of a message; the octets that are not set are zero.
unfoldable pub control_header : ℕ → ℕ → ℕ → ControlHeader
control_header id action streams = record {
  magic = magic_code;
  test_id = id;
  action_code = action;
  num_of_streams = streams;
  param0 = 0;
  param1 = 0;
  param2 = 0;
  param3 = 0;
}

abbrev pub summary_size : ℕ
summary_size = 1100

abbrev pub message_size : ℕ
message_size = 300

-- The reports of all streams, one behind the other.
unfoldable pub serialize_reports : {P : Platform} → List (IperfStream P) → Octets
serialize_reports [] = []
serialize_reports (s ∷ streams) = serialize_report s ++ serialize_reports streams

-- The state after an acknowledgement: a receiver starts with the first, and is done with the next.
unfoldable pub acknowledged : TestState → TestState
acknowledged test_none = test_start
acknowledged test_start = test_done
acknowledged state = state

module _ {P : Platform} where
  -- `ctrl_chn_->SendData`, with the assertion of Id() before it.
  unfoldable pub send_message : ℕ → Octets → IperfTest P → Result (IperfTest P)
  send_message size message t = do
    require (not (t.test_id == 0)) assertion
    conn ← or_fault t.ctrl_chn null_pointer
    ok (note (send_control (in_buffer size message)) t)

  -- The reports are written into a buffer of 1100 octets.
  unfoldable pub send_test_summary : IperfTest P → Result (IperfTest P)
  send_test_summary t = elim t.ctrl_chn [
    | none ↦ ok t
    | some conn ↦ (do
      require (not (t.test_id == 0)) assertion
      let message =
          encode (control_header t.test_id 3 (length t.streams)) ++ serialize_reports t.streams
      require (leb (length message) summary_size) out_of_bounds
      u ← send_message summary_size message t
      ok (record u { state = test_exchange_reports }))
  ]

  unfoldable pub send_test_parameters : IperfTest P → Result (IperfTest P)
  send_test_parameters t = do
    u ←
        send_message message_size
          (encode (control_header t.test_id 2 (length t.streams)) ++ serialize P.floating t.config)
          t
    ok (record u { state = test_exchange_parameters })

  unfoldable pub send_ack : IperfTest P → Result (IperfTest P)
  send_ack t = do
    u ← send_message message_size (encode (control_header t.test_id 4 0)) t
    ok (record u { state = acknowledged u.state })

  unfoldable pub send_test_ready : IperfTest P → Result (IperfTest P × Bool)
  send_test_ready t = elim t.ctrl_chn [
    | none ↦ ok (t, false)
    | some conn ↦ (do
      u ← send_message message_size (encode (control_header t.test_id 5 0)) t
      ok (u, true))
  ]
