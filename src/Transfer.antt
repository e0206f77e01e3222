-- ===== src/Transfer.antt =====
-- example/iperf-bats/iperf_file_transfer.h: a session that sends or receives files, class
-- IperfFileTransfer with its base IIperfTest. This file has its state; the children have the
-- format of the blocks, the sending thread, the receiver and the rest of the session.
pub mod Block
pub mod Sender
pub mod Receiver
pub mod Session
pub mod Callbacks
pub mod Names
pub mod Reception
pub mod Turns
pub mod Chunks
pub mod Large
pub mod Queueing
pub mod Arrivals
pub mod Stages
pub mod Delivery
pub mod Number
pub mod Ending
pub mod Untouched
pub mod Files
-- The compressor of iperf_compress_api.cc, which calls the density library: the octets of the result,
-- none where the library gives up. The first argument of `compress` is the room for the result.
use bats_protocol_api.Prelude.{ℕ, false, Bool, ◌∷◌, Option, true, List, none, []}
use bats_protocol_api.Prelude.Octets.{Octets}
use bats_protocol_api.Prelude.Floating.{Floating}
use bats_protocol_api.Connection.{BatsConfiguration}
use bats_protocol_api.Common.Config.{TestConfig}
use bats_protocol_api.Prelude.Int.{ℤ, pos}
use bats_protocol_api.Test.{TestState}

pub record Compressor : Type 0 where
  pub compress : ℕ → Octets → Octets
  pub decompress : Octets → Octets

-- class File, a file that waits to be sent.
pub record File : Type 0 where
  pub bar_id : ℕ
  pub file_sz : ℕ
  pub path : Octets

-- class FileStream. `file_writer` names the file that is open for writing.
pub record FileStream : Type 0 where
  pub id : ℕ
  pub is_connected : Bool
  pub is_writable : Bool
  pub is_done : Bool
  pub all_acked : Bool
  pub has_err_in_send : Bool
  pub ideal_buffer_length : ℤ
  pub stream : Option ℕ
  pub file_writer : Option Octets
  pub write_bytes : ℕ
  pub retry_cnt : ℕ
  pub file_name : Octets
  pub file_length : ℕ

unfoldable pub new_stream : ℕ → FileStream
new_stream i = record {
  id = i;
  is_connected = false;
  is_writable = true;
  is_done = false;
  all_acked = false;
  has_err_in_send = false;
  ideal_buffer_length = pos 4096;
  stream = none;
  file_writer = none;
  write_bytes = 0;
  retry_cnt = 0;
  file_name = [];
  file_length = 0;
}

-- The calls of the control channel, the protocol library, the threads and the printer.
pub data TransferAction : Type 0 where
  send_control : Octets → TransferAction
  load_config : BatsConfiguration → TransferAction
  start_connect : ℤ → Option ℕ → TransferAction
  start_listen : BatsConfiguration → ℤ → TransferAction
  start_thread : ℕ → TransferAction
  notify_one : ℕ → TransferAction
  break_all_wait : ℕ → TransferAction
  set_callback : ℕ → ℕ → TransferAction
  print_failure : TransferAction

-- `disk` has the files of the working directory, the one written last first. `connector` says
-- whether `data_chn_connector_` is set, `has_printer` whether `printer_` is.
pub record Transfer (F : Floating) : Type 0 where
  pub config : TestConfig F.Float
  pub test_id : ℕ
  pub ctrl_chn : Option ℕ
  pub state : TestState
  pub has_printer : Bool
  pub is_stopped : Bool
  pub connector : Bool
  pub streams : List FileStream
  pub pending : List File
  pub disk : List (Octets × Octets)
  pub calls : List TransferAction

module _ {F : Floating} where
  abbrev pub note : TransferAction → Transfer F → Transfer F
  note a t = record t { calls = a ∷ t.calls }
