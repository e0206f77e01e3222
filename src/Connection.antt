-- ===== src/Connection.antt =====
-- include/cpp/bats_connection.h and bats_config.h: the events that the protocol library reports
-- and the configuration that it takes. The library itself is not in the repository.
use bats_protocol_api.Prelude.{ℕ, ◌||◌, if◌then◌else◌}
use bats_protocol_api.Prelude.Int.{ℤ, pos, ◌==ℤ◌, wrap}
use bats_protocol_api.Prelude.Octets.{Octets}

pub data BatsListenEvent : Type 0 where
  listen_none listen_new_connection listen_failed listen_success : BatsListenEvent
  listen_accepted_error listen_already_in_listen listen_stopped : BatsListenEvent

pub data BatsConnEvent : Type 0 where
  connection_none connection_failed connection_established connection_timeout : BatsConnEvent
  connection_shutdown_by_peer connection_writable connection_data_received : BatsConnEvent
  connection_send_complete connection_send_data_error connection_buffer_full : BatsConnEvent
  connection_closed connection_error connection_already_connected : BatsConnEvent
  connection_ideal_buffer_length connection_all_data_acked : BatsConnEvent

pub data BatsFrameType : Type 0 where
  transparent bats_header_v0 bats_header_v1 bats_header_min : BatsFrameType

-- The members that the program sets. The transport mode is a `uint8_t`.
pub record BatsConfiguration : Type 0 where
  pub transport_mode : ℕ
  pub frame_type : BatsFrameType
  pub remote_addr : Octets
  pub remote_port : ℤ
  pub connection_timeout : ℤ

-- `static_cast<BATSTransMode>(protocol)`
unfoldable pub trans_mode : ℤ → ℕ
trans_mode protocol = wrap 256 protocol

-- The frame type for a mode; `bats_header_v1` is the default, and so what all other modes get.
unfoldable pub frame_type_for : ℤ → BatsFrameType
frame_type_for protocol =
    if protocol ==ℤ pos 10
    then bats_header_min
    else if protocol ==ℤ pos 11 || protocol ==ℤ pos 12
    then transparent
    else bats_header_v1
