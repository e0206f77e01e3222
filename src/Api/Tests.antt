-- ===== src/Api/Tests.antt =====
-- example/iperf-bats/iperf_test_api.h: class IIperfTest, the interface through which the process
-- uses a speed test or a file transfer. A virtual function is a function by the two classes.
use bats_protocol_api.Test.Handlers
use bats_protocol_api.Test.Status
use bats_protocol_api.Test.Control
use bats_protocol_api.Transfer.Session
use bats_protocol_api.Transfer.Callbacks
use bats_protocol_api.Stream.{Platform}
use bats_protocol_api.Test.{TestState, IperfTest, Moment}
use bats_protocol_api.Prelude.{ℕ, Bool, none, true, Option, not, ◌==◌}
use bats_protocol_api.Prelude.Results.{Result, ◌>>=◌, ◌>>◌, ok, require, assertion}
use bats_protocol_api.Common.{TestRole}
use bats_protocol_api.Transfer.{Transfer}
use bats_protocol_api.Prelude.Octets.{Octets}

pub data ApiTest (P : Platform) : Type 0 where
  speed_test : IperfTest P → ApiTest P
  file_transfer : Transfer P.floating → ApiTest P

-- What a call of a test finds outside of it: the times and a recorder, and the free space of the
-- disk.
pub record Visit (P : Platform) : Type 0 where
  pub moment : Moment P
  pub available : Option ℕ

module _ {P : Platform} where
  unfoldable pub test_number : ApiTest P → ℕ
  test_number (speed_test t) = t.test_id
  test_number (file_transfer t) = t.test_id

  -- Id(), which asserts that there is a number.
  unfoldable pub id_of : ApiTest P → Result ℕ
  id_of t = do require (not (test_number t == 0)) assertion; ok (test_number t)

  unfoldable pub get_state : ApiTest P → TestState
  get_state (speed_test t) = t.state
  get_state (file_transfer t) = t.state

  unfoldable pub was_stopped : ApiTest P → Bool
  was_stopped (speed_test t) = t.is_stopped
  was_stopped (file_transfer t) = t.is_stopped

  unfoldable pub close_ctrl_channel : ApiTest P → ApiTest P
  close_ctrl_channel (speed_test t) = speed_test (record t { ctrl_chn = none })
  close_ctrl_channel (file_transfer t) = file_transfer (record t { ctrl_chn = none })

  -- SetResolution and SetPrinter; SetBoundInf sets the name of an interface, which is read only for
  -- the address to listen on.
  unfoldable pub prepare : ℕ → ApiTest P → ApiTest P
  prepare resolution (speed_test t) = speed_test (record t {
    config = record t.config { resolution = P.floating.of_nat resolution };
    has_printer = true;
  })
  prepare resolution (file_transfer t) = file_transfer (record t {
    config = record t.config { resolution = P.floating.of_nat resolution };
    has_printer = true;
  })

  unfoldable pub set_role : TestRole → ApiTest P → ApiTest P
  set_role role (speed_test t) = speed_test (record t { config = record t.config { role = role } })
  set_role role (file_transfer t) =
      file_transfer (record t { config = record t.config { role = role } })

  unfoldable pub try_print_summary : ApiTest P → Result (ApiTest P)
  try_print_summary (speed_test t) = do u ← Handlers.try_print_summary t; ok (speed_test u)
  try_print_summary (file_transfer t) = ok (file_transfer t)

  unfoldable pub print_stream_send_summary : ApiTest P → ApiTest P
  print_stream_send_summary (speed_test t) = speed_test (Status.print_stream_send_summary t)
  print_stream_send_summary (file_transfer t) = file_transfer t

  unfoldable pub handle_control_message : Visit P → ℕ → Octets → ApiTest P → Result (ApiTest P)
  handle_control_message v conn message (speed_test t) = do
    u ← Handlers.handle_control_message v.moment conn message t
    ok (speed_test u)
  handle_control_message v conn message (file_transfer t) = do
    u ← Session.handle_control_message v.available conn message t
    ok (file_transfer u)

  unfoldable pub test_finish_state : Visit P → ApiTest P → Result (ApiTest P × Bool)
  test_finish_state v (speed_test t) = do
    (u, over) ← Status.test_finish_state v.moment t
    ok (speed_test u, over)
  test_finish_state v (file_transfer t) =
      let (u, over) = Callbacks.is_stream_done t in ok (file_transfer u, over)

  unfoldable pub on_sent_finished : Visit P → ApiTest P → Result (ApiTest P)
  on_sent_finished v (speed_test t) = do u ← Control.on_sent_finished v.moment t; ok (speed_test u)
  on_sent_finished v (file_transfer t) = ok (file_transfer t)

  unfoldable pub is_stream_ready : ApiTest P → ApiTest P × Bool
  is_stream_ready (speed_test t) =
      let (u, ready) = Status.is_stream_ready t in (speed_test u, ready)
  is_stream_ready (file_transfer t) = (file_transfer t, Callbacks.is_stream_ready t)

  unfoldable pub is_stream_done : ApiTest P → ApiTest P × Bool
  is_stream_done (speed_test t) = (speed_test t, Status.is_stream_done t)
  is_stream_done (file_transfer t) =
      let (u, over) = Callbacks.is_stream_done t in (file_transfer u, over)

  unfoldable pub start : Bool → Bool → ApiTest P → ApiTest P × Bool
  start has_key has_cert (speed_test t) =
      let (u, started) = Control.start has_key has_cert t in (speed_test u, started)
  start has_key has_cert (file_transfer t) =
      let (u, started) = Session.start has_key has_cert t in (file_transfer u, started)

  unfoldable pub stop : Visit P → ApiTest P → Result (ApiTest P)
  stop v (speed_test t) = do (u, first) ← Control.stop_test v.moment t; ok (speed_test u)
  stop v (file_transfer t) = ok (file_transfer (Session.stop t))
