-- ===== src/Stream.antt =====
-- example/iperf-bats/iperf_stream.h: one data stream of a speed test, class IperfStream. This file
-- has its state; the children have its operations.
pub mod Header
pub mod Report
pub mod Receive
pub mod Arrival
pub mod Send
pub mod Control
pub mod Blocks
use bats_protocol_api.Prelude.{replicate, suc, ◌++◌}
use bats_protocol_api.Prelude.{ℕ, Bool, true, false, List, ◌∷◌, Option}
use bats_protocol_api.Prelude.Int.{ℤ}
use bats_protocol_api.Prelude.Octets.{Octets}
use bats_protocol_api.Prelude.Floating.{Floating}
use bats_protocol_api.Common.{TestReport, TestInterval}
use bats_protocol_api.Retry.{Poll}
use bats_protocol_api.Connection.{BatsConfiguration}
use bats_protocol_api.Common.Config.{TestConfig}

-- What the stream uses of code outside the repository: src/util/seq_recorder.h (SeqRecorder2M)
-- and src/util/ring_arithmetic.h.
pub record Platform : Type 1 where
  pub floating : Floating
  pub Recorder : Type 0
  pub reset : Recorder → Recorder
  pub record_seq : Recorder → ℕ → Recorder
  pub has : Recorder → ℕ → Bool
  pub max_seq : Recorder → ℕ
  pub recorded_num_in_range : Recorder → ℕ → ℕ → ℕ
  pub is_less_than_in_half_ring : ℕ → ℕ → Bool

abbrev pub Float : Platform → Type 0
Float P = P.floating.Float

pub data StreamState : Type 0 where
  stream_none stream_start stream_stop stream_done : StreamState

pub data ConnectionState : Type 0 where
  conn_none conn_connecting conn_connected conn_disconnected : ConnectionState

-- struct iperf_test_header, the head of every data block.
pub record TestHeader : Type 0 where
  pub magic : ℕ
  pub stream_identifier : ℕ
  pub seq : ℕ
  pub time : ℕ
  pub grp_id : ℕ
  pub last : ℕ
  pub ack : ℕ
  pub has_interval : ℕ
  pub reserved : ℕ
  pub interval_id : ℕ

-- The calls that a stream makes of the connection, the connector and the terminal.
pub data Action (P : Platform) : Type 0 where
  create_protocol : BatsConfiguration → Action P
  start_connect : Octets → ℤ → Action P
  stop_connection : Option ℕ → Action P
  set_callback : ℕ → Action P
  send_data : Octets → Bool → Action P
  notify_one : Action P
  print_last_interval : ℕ → TestInterval (Float P) → Action P
  print_send_summary : TestInterval (Float P) → Action P
  print_receive_summary : TestInterval (Float P) → Action P

-- `header` and `body` are the buffer `iperf_data_`: its first 40 octets seen as the header, and the
-- rest. `diffs` is the deque `diff_s_r_list_`, its back first; `calls` has the calls made so far,
-- the last one first. `connector` says whether `connector_` is set.
pub record IperfStream (P : Platform) : Type 0 where
  pub config : TestConfig (Float P)
  pub stream_identifier : ℕ
  pub is_sum_printed : Bool
  pub is_sum_received : Bool
  pub is_fin_received : Bool
  pub is_fin_acked : Bool
  pub is_writable : Bool
  pub has_err_in_send : Bool
  pub is_stopped : Bool
  pub conn_state : ConnectionState
  pub state : StreamState
  pub connector : Bool
  pub connect_retry_cnt : ℕ
  pub stream_id : ℕ
  pub sender_report : TestReport (Float P)
  pub receiver_report : TestReport (Float P)
  pub data_conn : Option ℕ
  pub header : TestHeader
  pub body : Octets
  pub ideal_length : ℕ
  pub last_grp_id : Option ℕ
  pub seq_of_last_changed_grp_id : ℕ
  pub recorder : P.Recorder
  pub diffs : List ℤ
  pub is_first_jitter_calculation : Bool
  pub calls : List (Action P)

abbrev pub emit : {P : Platform} → Action P → IperfStream P → IperfStream P
emit a s = record s { calls = a ∷ s.calls }

-- The calls of SendData with one block: the first, and those of the retry loop.
abbrev pub emit_again : {P : Platform} → ℕ → Action P → IperfStream P → IperfStream P
emit_again n a s = record s { calls = replicate (suc n) a ++ s.calls }

-- The times of one call: get_time_in_ms<ClockType::MONOTONIC>() and get_time_in_ms().
pub record Clock : Type 0 where
  pub monotonic : ℕ
  pub wall : ℕ

-- What SendData answers at first, and what the retry loop meets after that.
pub record Sending : Type 0 where
  pub at_once : Bool
  pub polls : List Poll

abbrev pub is_connected_state : ConnectionState → Bool
is_connected_state conn_connected = true
is_connected_state _ = false
