-- ===== src/Test/Handlers.antt =====
-- example/iperf-bats/iperf_test.cc: the handlers of the messages on the control channel, and
-- TryPrintSummary.
use bats_protocol_api.Stream.{Platform, Float, IperfStream}
use bats_protocol_api.Test.{
  TestState, IperfTest, Moment, with_printer, is_done, is_receiver, test_start, print_recv_header,
  print_sent_header, each_stream, test_done, test_exchange_parameters, test_exchange_reports, note,
  start_listen,
}
use bats_protocol_api.Prelude.{
  Bool, ℕ, List, true, if◌then◌else◌, ◌==◌, ◌∷◌, suc, [], ◌+◌, map, ◌++◌, zero, drop, false, some,
  none,
}
use bats_protocol_api.Common.Config.{TestConfig, deserialize, default_config}
use bats_protocol_api.Prelude.Octets.{Octets, read_le}
use bats_protocol_api.Prelude.Results.{
  Result, ◌>>=◌, ok, or_fault, ◌>>◌, require, assertion, out_of_bounds,
}
use bats_protocol_api.Wire.{ControlHeader, decode, header_size}
use bats_protocol_api.Connection.{BatsConfiguration, trans_mode, frame_type_for}
use bats_protocol_api.Stream.Control.{start_connecting, new_connecting}
use bats_protocol_api.Prelude.Int.{pos_part, ◌==ℤ◌, pos}
use bats_protocol_api.Stream.Report.{print_send_recv_summary, deserialize_report, finish_report}
use bats_protocol_api.Stream.Send.{start_send}
use bats_protocol_api.Common.{role_receiver, is_reliable_protocol}
use bats_protocol_api.Test.Messages.{send_ack}
use bats_protocol_api.Prelude.Floating.{Floating}

-- The configuration of the data channel's listener.
unfoldable pub listen_config : (F : Floating) → TestConfig F.Float → BatsConfiguration
listen_config F c = record {
  transport_mode = trans_mode c.protocol;
  frame_type = frame_type_for c.protocol;
  remote_addr = [];
  remote_port = pos 0;
  connection_timeout = F.to_int (F.times (F.times c.interval c.time) (F.of_nat 1000));
}

module _ {P : Platform} where
  unfoldable pub try_print_summary : IperfTest P → Result (IperfTest P)
  try_print_summary t =
      if is_receiver t.config.role
      then (do
        u ← with_printer print_recv_header t
        ok (record u { streams = map print_send_recv_summary u.streams }))
      else ok t

  -- All streams start to send.
  unfoldable pub ready_in : TestState → Moment P → IperfTest P → Result (IperfTest P)
  ready_in test_start m t = do
    u ← with_printer print_sent_header t
    ok (record u { streams = each_stream start_send m.time 0 u.streams })
  ready_in _ m t = ok t

  unfoldable pub handle_ready_message : Moment P → IperfTest P → Result (IperfTest P)
  handle_ready_message m t = ready_in t.state m (record t { is_ready_received = true })

  -- A new stream of the sender, asked to connect; over UDP it does not wait for the peer.
  unfoldable pub open_stream : P.Recorder → ℕ → ℕ → TestConfig (Float P) → Result (IperfStream P)
  open_stream recorder id time config = do
    s ← start_connecting (new_connecting recorder config id time)
    ok (if config.protocol ==ℤ pos 11 then start_send time s else s)

  -- `count` new streams, from the i-th on.
  unfoldable pub open_streams :
      Moment P → TestConfig (Float P) → ℕ → ℕ → Result (List (IperfStream P))
  open_streams m config i zero = ok []
  open_streams m config i (suc count) = do
    s ← open_stream m.recorder (m.next_id + i) (m.time i) config
    rest ← open_streams m config (i + 1) count
    ok (s ∷ rest)

  unfoldable pub ack_in : TestState → Moment P → IperfTest P → Result (IperfTest P)
  ack_in test_exchange_parameters m t = do
    opened ← open_streams m t.config 0 (pos_part t.config.num_streams)
    ok (record t { state = test_start; streams = t.streams ++ opened })
  ack_in test_exchange_reports m t = ok (record t { state = test_done })
  ack_in _ m t = ok t

  unfoldable pub handle_ack_message : Moment P → IperfTest P → Result (IperfTest P)
  handle_ack_message m t = ack_in t.state m t

  -- The inner loop: every stream with the identifier reads a report at the place reached so far.
  -- Where FIN can be lost, the report also finishes the stream.
  unfoldable pub match_streams :
      Bool
      → (ℕ → ℕ)
      → ℕ
      → ℕ
      → Octets
      → List (IperfStream P)
      → Result (List (IperfStream P) × Octets)
  match_streams reliable time i identifier from [] = ok ([], from)
  match_streams reliable time i identifier from (s ∷ streams) =
      elim (s.stream_identifier == identifier) [
        | false ↦ (do
          (others, rest) ← match_streams reliable time (i + 1) identifier from streams
          ok (s ∷ others, rest))
        | true ↦ (do
          (t, behind) ← deserialize_report s from
          (others, rest) ← match_streams reliable time (i + 1) identifier behind streams
          ok ((if reliable then t else finish_report (time i) t) ∷ others, rest))
      ]

  -- The loop over the reports of a message.
  unfoldable pub read_reports :
      Bool → (ℕ → ℕ) → ℕ → Octets → List (IperfStream P) → Result (List (IperfStream P))
  read_reports reliable time zero from streams = ok streams
  read_reports reliable time (suc count) from streams = do
    identifier ← or_fault (read_le 8 from) out_of_bounds
    (others, rest) ← match_streams reliable time 0 identifier (drop 8 from) streams
    read_reports reliable time count rest others

  unfoldable pub handle_summary_message :
      Moment P → ControlHeader → Octets → IperfTest P → Result (IperfTest P)
  handle_summary_message m header body t = if is_done t.state then ok t else (do
    require (header.test_id == t.test_id) assertion
    let reliable = is_reliable_protocol t.config.protocol
    streams ← read_reports reliable m.time header.num_of_streams body t.streams
    u ← send_ack (record t { streams = streams })
    if reliable then ok u else try_print_summary u)

  -- The received parameters, with what only this side decides, and the listener that they ask for.
  unfoldable pub with_parameters : TestConfig (Float P) → IperfTest P → IperfTest P
  with_parameters received t =
      note (start_listen (listen_config P.floating received) received.port) (record t {
        config = record received {
          resolution = t.config.resolution;
          is_debug_mode = t.config.is_debug_mode;
          is_precise_time_enabled = t.config.is_precise_time_enabled;
          role = role_receiver;
        };
      })

  unfoldable pub handle_test_parameters : Octets → IperfTest P → Result (IperfTest P)
  handle_test_parameters body t = if is_done t.state then ok t else (do
    received ← or_fault (deserialize P.floating body (default_config P.floating)) out_of_bounds
    u ← send_ack (with_parameters received t)
    with_printer print_recv_header u)

  -- The handler that an action code stands for; a message with another code is only logged.
  unfoldable pub handle_action :
      Moment P → ControlHeader → Octets → IperfTest P → Result (IperfTest P)
  handle_action m header body t =
      if header.action_code == 4
      then handle_ack_message m t
      else if header.action_code == 3
      then handle_summary_message m header body t
      else if header.action_code == 2
      then handle_test_parameters body t
      else if header.action_code == 5
      then handle_ready_message m t
      else ok t

  -- The first connection that a message arrives on becomes the control channel.
  unfoldable pub heard_on : ℕ → IperfTest P → IperfTest P
  heard_on conn t = record t { ctrl_chn = elim t.ctrl_chn [ none ↦ some conn | some c ↦ some c ] }

  unfoldable pub handle_control_message : Moment P → ℕ → Octets → IperfTest P → Result (IperfTest P)
  handle_control_message m conn message t = do
    header ← or_fault (decode message) out_of_bounds
    require (header.test_id == t.test_id) assertion
    handle_action m header (drop header_size message) (heard_on conn t)
