-- ===== src/Test/Control.antt =====
-- example/iperf-bats/iperf_test.cc: Start, Stop, OnSentFinished and the two callbacks of a test.
use bats_protocol_api.Stream.{Platform, Float}
use bats_protocol_api.Prelude.{
  Bool, ℕ, Option, if◌then◌else◌, ◌%◌, ◌&&◌, ◌^◌, false, none, true, [], ◌++◌, ◌∷◌, some, not, ◌==◌,
  length,
}
use bats_protocol_api.Test.{
  Moment, IperfTest, with_printer, note, start_control, print_sent_header, test_none, print_failure,
  each_stream, test_done, print_sender_info,
}
use bats_protocol_api.Common.{TestRole, role_none, role_receiver}
use bats_protocol_api.Common.Config.{TestConfig}
use bats_protocol_api.Connection.{
  BatsConnEvent, BatsListenEvent, listen_new_connection, bats_header_min, connection_failed,
  connection_closed, connection_shutdown_by_peer, connection_established, connection_data_received,
}
use bats_protocol_api.Prelude.Results.{
  Result, ◌>>◌, ok, ◌>>=◌, or_fault, require, null_pointer, assertion,
}
use bats_protocol_api.Prelude.Octets.{Octets}
use bats_protocol_api.Stream.Control.{new_accepted, start_recv, stop}
use bats_protocol_api.Test.Handlers.{try_print_summary, handle_control_message}
use bats_protocol_api.Prelude.Int.{◌-ℤ◌, pos, ◌==ℤ◌, wrap}
use bats_protocol_api.Stream.Report.{finish_report}
use bats_protocol_api.Test.Messages.{send_test_parameters, send_test_summary, send_test_ready}

module _ {P : Platform} where
  -- A new test; `id` is the given one, or for a sender the time.
  unfoldable pub new_test : ℕ → TestConfig (Float P) → IperfTest P
  new_test id config = record {
    config = config;
    test_id = id % 2 ^ 32;
    ctrl_chn = none;
    state = test_none;
    has_printer = false;
    is_stopped = false;
    is_ready_received = false;
    streams = [];
    passed_ticks = 0;
    released = [];
    calls = [];
  }

  -- The control channel is TCP on the port below the one of the data.
  unfoldable pub start : Bool → Bool → IperfTest P → IperfTest P × Bool
  start has_key has_cert t =
      if has_key && has_cert
      then (
        note
            (start_control (record {
              transport_mode = 10;
              frame_type = bats_header_min;
              remote_addr = t.config.peer_host;
              remote_port = t.config.port -ℤ pos 1;
              connection_timeout = pos 1000000;
            }))
            t,
        true,
      )
      else (t, false)

  -- The test's streams are stopped and let go, after a receiver has printed what they report.
  unfoldable pub stop_test : Moment P → IperfTest P → Result (IperfTest P × Bool)
  stop_test m t = if t.is_stopped then ok (t, false) else (do
    u ← try_print_summary (record t {
      is_stopped = true;
      state = test_done;
      streams = each_stream stop m.time 0 t.streams;
    })
    ok (record u { streams = []; released = u.streams }, true))

  finish_all : Moment P → IperfTest P → Result (IperfTest P)
  finish_all m t = do
    u ←
        with_printer print_sent_header
          (record t { streams = each_stream finish_report m.time 0 t.streams })
    send_test_summary u

  finished_as : TestRole → Moment P → IperfTest P → Result (IperfTest P)
  unfolding finish_all
  finished_as role_none m t = ok t
  finished_as _ m t = finish_all m t

  unfoldable pub on_sent_finished : Moment P → IperfTest P → Result (IperfTest P)
  unfolding finished_as
  on_sent_finished m t = finished_as t.config.role m t

  -- A data connection that the listener accepted. Over UDP there is no signal to the sender.
  unfoldable pub accept_stream : Moment P → ℕ → ℕ → IperfTest P → Result (IperfTest P)
  accept_stream m conn ideal t = do
    s ← new_accepted m.recorder (record t.config { role = role_receiver }) m.next_id conn ideal
    r ← start_recv s
    let u = record t { streams = t.streams ++ (r ∷ []) }
    if not (u.config.protocol ==ℤ pos 11) && wrap (2 ^ 64) u.config.num_streams == length u.streams
        then (do (v, sent) ← send_test_ready u; ok v)
        else ok u

  unfoldable pub data_listen_callback :
      Moment P → BatsListenEvent → Option ℕ → ℕ → IperfTest P → Result (IperfTest P)
  data_listen_callback m listen_new_connection conn ideal t = do
    c ← or_fault conn assertion
    accept_stream m c ideal t
  data_listen_callback m _ conn ideal t = ok t

  close_channel : Moment P → IperfTest P → Result (IperfTest P)
  close_channel m t = do (u, first) ← stop_test m (record t { ctrl_chn = none }); ok u

  -- The control channel of the sender.
  unfoldable pub control_channel_callback :
      Moment P → BatsConnEvent → ℕ → Octets → IperfTest P → Result (IperfTest P)
  unfolding close_channel
  control_channel_callback m connection_failed conn message t = do
    require t.has_printer null_pointer
    ok (note print_failure t)
  control_channel_callback m connection_closed conn message t = close_channel m t
  control_channel_callback m connection_shutdown_by_peer conn message t = close_channel m t
  control_channel_callback m connection_established conn message t = do
    require t.has_printer null_pointer
    send_test_parameters (note print_sender_info (record t { ctrl_chn = some conn }))
  control_channel_callback m connection_data_received conn message t =
      handle_control_message m conn message t
  control_channel_callback m _ conn message t = ok t
