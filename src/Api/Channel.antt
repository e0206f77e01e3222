-- ===== src/Api/Channel.antt =====
-- example/iperf-bats/iperf_bats_api.cc: the callbacks of the control channel and
-- HandleControlMessage.
pub mod Table
use bats_protocol_api.Api.Tests
use bats_protocol_api.Api.Process.{
  set_callback, note, Api, print_receiver_failure, default_resolution, print_receiver_info,
}
use bats_protocol_api.Test.Control.{new_test}
use bats_protocol_api.Stream.{Platform, Action}
use bats_protocol_api.Api.Tests.{
  Visit, ApiTest, prepare, file_transfer, close_ctrl_channel, set_role, speed_test, id_of,
}
use bats_protocol_api.Api.{Recipient, known_test, recipient, new_transfer, new_speed_test}
use bats_protocol_api.Connection.{
  BatsConnEvent, BatsListenEvent, connection_failed, connection_closed, connection_shutdown_by_peer,
  listen_new_connection, connection_established, listen_failed, listen_success,
  connection_data_received,
}
use bats_protocol_api.Wire.{ControlHeader, decode}
use bats_protocol_api.Prelude.{Option, ℕ, none, false, true, some}
use bats_protocol_api.Prelude.Octets.{Octets}
use bats_protocol_api.Prelude.Results.{Result, ◌>>=◌, ok, or_fault, out_of_bounds, exception}
use bats_protocol_api.Prelude.Tables.{find, update, keys, insert}
use bats_protocol_api.Transfer.Session.{new_session}
use bats_protocol_api.Common.{role_receiver}

module _ {P : Platform} where
  -- A new test for a request, with the configuration of the process.
  unfoldable pub received_test : Recipient → ControlHeader → Api P → Result (ApiTest P)
  received_test new_transfer header a = ok (file_transfer (new_session header.test_id a.config))
  received_test new_speed_test header a = ok (speed_test (new_test header.test_id a.config))
  received_test known_test header a = or_fault (find header.test_id a.tests) exception

  -- A new test handles the request before it comes into the table; from then on its number is the
  -- context of the connection.
  unfoldable pub handle_first : Visit P → ℕ → Octets → ApiTest P → Api P → Result (Api P)
  handle_first v conn message t a = do
    u ←
        Tests.handle_control_message v conn message
          (prepare default_resolution (set_role role_receiver t))
    i ← id_of u
    ok (note (set_callback conn (some i)) (record a { tests = insert i u a.tests }))

  handle_known : Visit P → ℕ → Octets → ControlHeader → ApiTest P → Api P → Result (Api P)
  handle_known v conn message header t a = do
    u ← Tests.handle_control_message v conn message t
    ok (record a { tests = update header.test_id u a.tests })

  unfoldable pub deliver :
      Recipient → Visit P → ℕ → Octets → ControlHeader → ApiTest P → Api P → Result (Api P)
  unfolding handle_known
  deliver known_test v conn message header t a = handle_known v conn message header t a
  deliver _ v conn message header t a = handle_first v conn message t a

  unfoldable pub handle_control_message : Visit P → ℕ → Octets → Api P → Result (Api P)
  handle_control_message v conn message a = do
    header ← or_fault (decode message) out_of_bounds
    to ← recipient (keys a.tests) header
    t ← received_test to header a
    deliver to v conn message header t a

  unfoldable pub end_found : Visit P → ℕ → Option (ApiTest P) → Api P → Result (Api P)
  end_found v i none a = ok a
  end_found v i (some t) a = do
    u ← Tests.stop v (close_ctrl_channel t)
    ok (record a { tests = update i u a.tests })

  -- The end of a control connection ends the test whose number is its context.
  unfoldable pub end_test : Visit P → ℕ → Api P → Result (Api P)
  end_test v i a = end_found v i (find i a.tests) a

  unfoldable pub channel_ended : Visit P → Option ℕ → Api P → Result (Api P)
  channel_ended v none a = ok (record a { is_ctrl_chn_connected = false })
  channel_ended v (some i) a = do
    b ← end_test v i a
    ok (record b { is_ctrl_chn_connected = false })

  unfoldable pub control_channel_connection_callback :
      BatsConnEvent → Visit P → ℕ → Octets → Option ℕ → Api P → Result (Api P)
  control_channel_connection_callback connection_failed v conn message user a =
      channel_ended v user a
  control_channel_connection_callback connection_closed v conn message user a =
      channel_ended v user a
  control_channel_connection_callback connection_shutdown_by_peer v conn message user a =
      channel_ended v user a
  control_channel_connection_callback connection_established v conn message user a =
      ok (record a { is_ctrl_chn_connected = true })
  control_channel_connection_callback connection_data_received v conn message user a =
      handle_control_message v conn message a
  control_channel_connection_callback _ v conn message user a = ok a

  unfoldable pub control_channel_listen_callback : BatsListenEvent → ℕ → Api P → Api P
  control_channel_listen_callback listen_new_connection conn a =
      note (set_callback conn none) (record a { is_ctrl_chn_connected = true })
  control_channel_listen_callback listen_failed conn a = note print_receiver_failure a
  control_channel_listen_callback listen_success conn a = note print_receiver_info a
  control_channel_listen_callback _ conn a = a
