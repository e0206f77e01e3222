-- ===== src/Test.antt =====
-- example/iperf-bats/iperf_test_api.h and iperf_test.h: one speed test, class IperfTest with its
-- base IIperfTest. This file has its state; the children have its operations.
use bats_protocol_api.Prelude.Octets.{Octets}
use bats_protocol_api.Stream.{StreamState, Platform, IperfStream, Float, stream_done}
use bats_protocol_api.Prelude.{Bool, ◌∷◌, true, ℕ, false, Option, List, ◌+◌, []}
use bats_protocol_api.Common.{TestRole, role_receiver, role_sender}
use bats_protocol_api.Connection.{BatsConfiguration}
use bats_protocol_api.Common.Config.{TestConfig}
use bats_protocol_api.Prelude.Results.{Result, ◌>>◌, require, assertion, ok}
use bats_protocol_api.Prelude.Int.{ℤ}
pub mod Messages
pub mod Handlers
pub mod Status
pub mod Control
pub mod Machine
pub mod Ending
pub mod Exchange
pub mod Summary
pub mod Stopping
pub mod Handshake
pub mod Number

-- enum class TestState
pub data TestState : Type 0 where
  test_none test_exchange_parameters test_start test_exchange_reports test_done : TestState

-- The calls that a test makes of the control channel, of the protocol library and of the printer.
pub data TestAction : Type 0 where
  send_control : Octets → TestAction
  start_control : BatsConfiguration → TestAction
  start_listen : BatsConfiguration → ℤ → TestAction
  print_failure : TestAction
  print_sender_info : TestAction
  print_sent_header : TestAction
  print_recv_header : TestAction

-- `has_printer` says whether `printer_` is set. `released` keeps the streams that Stop lets go of,
-- so that what they did can still be read; `calls` has the calls made so far, the last one first.
pub record IperfTest (P : Platform) : Type 0 where
  pub config : TestConfig (Float P)
  pub test_id : ℕ
  pub ctrl_chn : Option ℕ
  pub state : TestState
  pub has_printer : Bool
  pub is_stopped : Bool
  pub is_ready_received : Bool
  pub streams : List (IperfStream P)
  pub passed_ticks : ℕ
  pub released : List (IperfStream P)
  pub calls : List TestAction

-- What a call finds outside the test: the time that it reads for its i-th stream, a new recorder
-- for a stream's sequence numbers, and the counter of streams.
pub record Moment (P : Platform) : Type 0 where
  pub time : ℕ → ℕ
  pub recorder : P.Recorder
  pub next_id : ℕ

abbrev pub is_done : TestState → Bool
is_done test_done = true
is_done _ = false

abbrev pub is_stream_done_state : StreamState → Bool
is_stream_done_state stream_done = true
is_stream_done_state _ = false

abbrev pub is_sender : TestRole → Bool
is_sender role_sender = true
is_sender _ = false

abbrev pub is_receiver : TestRole → Bool
is_receiver role_receiver = true
is_receiver _ = false

module _ {P : Platform} where
  abbrev pub note : TestAction → IperfTest P → IperfTest P
  note a t = record t { calls = a ∷ t.calls }

  -- A member function called on each stream in turn, with the time that it reads.
  abbrev pub each_stream :
      (ℕ → IperfStream P → IperfStream P)
      → (ℕ → ℕ)
      → ℕ
      → List (IperfStream P)
      → List (IperfStream P)
  each_stream f time i [] = []
  each_stream f time i (s ∷ streams) = f (time i) s ∷ each_stream f time (i + 1) streams

  -- A use of the printer: an assertion, then the call.
  abbrev pub with_printer : TestAction → IperfTest P → Result (IperfTest P)
  with_printer a t = do require t.has_printer assertion; ok (note a t)
