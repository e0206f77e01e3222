-- ===== src/Transfer/Callbacks.antt =====
-- example/iperf-bats/iperf_file_transfer.cc: ConnectionCallback, DataListenCallback, IsStreamReady
-- and IsStreamDone.
use bats_protocol_api.Transfer.Session.{stop, handle_control_message, send_file_transfer_request}
use bats_protocol_api.Transfer.{
  note, start_connect, start_thread, set_callback, print_failure, notify_one, Transfer, FileStream,
  Compressor, new_stream,
}
use bats_protocol_api.Prelude.Floating.{Floating}
use bats_protocol_api.Connection.{
  BatsConnEvent, BatsListenEvent, connection_timeout, connection_failed, listen_new_connection,
  connection_closed, connection_shutdown_by_peer, connection_established, connection_data_received,
  connection_buffer_full, connection_writable, connection_ideal_buffer_length,
  connection_all_data_acked, connection_send_data_error,
}
use bats_protocol_api.Prelude.{
  ℕ, Bool, get_elem?, if◌then◌else◌, ◌||◌, some, none, Option, true, ltb, ◌&&◌, not, List, false,
  ◌+◌, ◌∷◌, set, length, ◌++◌, [],
}
use bats_protocol_api.Prelude.Results.{
  Result, ◌>>=◌, ◌>>◌, fault, ok, or_fault, require, out_of_bounds, assertion, null_pointer,
}
use bats_protocol_api.Common.{TestRole, role_file_receiver, role_file_sender}
use bats_protocol_api.Prelude.Octets.{Octets, is_empty}
use bats_protocol_api.Prelude.Int.{ℤ, pos, ltb_ℤ, ◌-ℤ◌, ◌==ℤ◌}
use bats_protocol_api.Transfer.Receiver.{Storage, handle_received_file_data}
use bats_protocol_api.Test.{is_done, test_done}

-- A call of the callback. `user` is the number that the context of a data connection points to, and
-- none on the control channel; `ideal` is what GetIdealBufferLength answers.
pub record TransferCall : Type 0 where
  pub event : BatsConnEvent
  pub conn : ℕ
  pub payload : Octets
  pub length : ℕ
  pub ideal : ℕ
  pub user : Option ℕ
  pub available : Option ℕ
  pub storage : Storage

mark_acked : FileStream → FileStream
mark_acked s = if s.is_done then record s { all_acked = true } else s

-- The count of streams still expected; none when one of them is still to come.
unfoldable pub expected : (FileStream → Bool) → ℤ → List FileStream → Option ℤ
expected test n [] = some n
expected test n (s ∷ streams) = elim (test s) [
  | false ↦ none
  | true ↦ expected test (n -ℤ pos 1) streams
]

abbrev is_file_sender : TestRole → Bool
is_file_sender role_file_sender = true
is_file_sender _ = false

abbrev is_file_receiver : TestRole → Bool
is_file_receiver role_file_receiver = true
is_file_receiver _ = false

-- A sender's stream that has no error has sent all files, and all that it sent is acknowledged.
unfoldable pub is_settled : TestRole → FileStream → Bool
is_settled role s = s.has_err_in_send || not (is_file_sender role) || (s.is_done && s.all_acked)

module _ {F : Floating} where
  -- A change of the stream at place `i`; a place that is not there is accessed out of bounds.
  unfoldable pub on_stream :
      ℕ → (FileStream → Transfer F → FileStream × Transfer F) → Transfer F → Result (Transfer F)
  on_stream i f t = elim (get_elem? t.streams i) [
    | none ↦ fault out_of_bounds
    | some s ↦ (let (u, v) = f s t in ok (record v { streams = set v.streams i u }))
  ]

  abbrev change : (FileStream → FileStream) → FileStream → Transfer F → FileStream × Transfer F
  change f s t = (f s, t)

  -- Three more requests for a connection that timed out.
  unfoldable pub retry_stream : FileStream → Transfer F → FileStream × Transfer F
  retry_stream s t =
      if ltb s.retry_cnt 3
      then (
        record s { retry_cnt = s.retry_cnt + 1 },
        note (start_connect t.config.port (some s.id)) t,
      )
      else (s, t)

  connected : ℕ → ℕ → FileStream → Transfer F → FileStream × Transfer F
  connected conn ideal s t = (
    record s { stream = some conn; is_connected = true; ideal_buffer_length = pos ideal },
    note (start_thread s.id) t,
  )

  closed_stream : ℕ → Transfer F → Result (Transfer F × Bool)
  closed_stream i t = elim (get_elem? t.streams i) [
    | none ↦ ok (t, false)
    | some s ↦ ok (record t { streams = set t.streams i (record s { stream = none }) }, true)
  ]

  processed : Result (Transfer F) → Result (Transfer F × Bool)
  processed r = do t ← r; ok (t, true)

  -- An event of the control channel.
  unfoldable pub control_event :
      BatsConnEvent → TransferCall → Transfer F → Result (Transfer F × Bool)
  unfolding processed
  control_event connection_failed call t =
      processed (do require t.has_printer null_pointer; ok (note print_failure t))
  control_event connection_closed call t = ok (stop (record t { ctrl_chn = none }), true)
  control_event connection_shutdown_by_peer call t = ok (stop (record t { ctrl_chn = none }), true)
  control_event connection_established call t =
      processed (send_file_transfer_request (record t { ctrl_chn = some call.conn }))
  control_event connection_data_received call t =
      processed (handle_control_message call.available call.conn call.payload t)
  control_event _ call t = ok (t, true)

  -- An event of the data connection of the stream at place `i`.
  unfoldable pub data_event :
      Compressor → BatsConnEvent → ℕ → TransferCall → Transfer F → Result (Transfer F × Bool)
  unfolding processed connected closed_stream mark_acked
  data_event C connection_timeout i call t = processed (on_stream i retry_stream t)
  data_event C connection_failed i call t =
      processed (do require t.has_printer null_pointer; ok (note print_failure t))
  data_event C connection_closed i call t = closed_stream i t
  data_event C connection_shutdown_by_peer i call t = closed_stream i t
  data_event C connection_established i call t =
      processed (on_stream i (connected call.conn call.ideal) t)
  data_event C connection_buffer_full i call t =
      processed (on_stream i (change (λ s. record s { is_writable = false })) t)
  data_event C connection_writable i call t = processed (do
    u ← on_stream i (change (λ s. record s { is_writable = true })) t
    ok (note (notify_one i) u))
  data_event C connection_ideal_buffer_length i call t =
      processed (on_stream i (change (λ s. record s { ideal_buffer_length = pos call.length })) t)
  data_event C connection_data_received i call t =
      processed (handle_received_file_data C call.storage i call.payload t)
  data_event C connection_all_data_acked i call t = processed (on_stream i (change mark_acked) t)
  data_event C connection_send_data_error i call t =
      processed (on_stream i (change (λ s. record s { has_err_in_send = true })) t)
  data_event C _ i call t = ok (t, true)

  unfoldable pub connection_callback :
      Compressor → TransferCall → Transfer F → Result (Transfer F × Bool)
  connection_callback C call t = elim call.user [
    | none ↦ control_event call.event call t
    | some i ↦ data_event C call.event i call t
  ]

  -- An accepted connection becomes one more stream.
  unfoldable pub data_listen_callback :
      BatsListenEvent → Option ℕ → Transfer F → Result (Transfer F)
  data_listen_callback listen_new_connection conn t = do
    c ← or_fault conn assertion
    let i = length t.streams
    ok (
        note (set_callback c i) (record t {
          streams =
              t.streams ++ (record (new_stream i) { is_connected = true; stream = some c } ∷ []);
        }))
  data_listen_callback _ conn t = ok t

  unfoldable pub is_stream_ready : Transfer F → Bool
  is_stream_ready t =
      if is_done t.state && is_empty t.streams
      then true
      else elim (expected (λ s. s.is_connected) t.config.num_streams t.streams) [
        | none ↦ false
        | some left ↦ left ==ℤ pos 0
      ]

  unfoldable pub is_stream_done : Transfer F → Transfer F × Bool
  is_stream_done t =
      if is_file_receiver t.config.role && not (ltb_ℤ (pos 0) t.config.num_files) && is_done t.state
      then (t, true)
      else if is_done t.state && is_empty t.streams
      then (t, true)
      else elim (expected (is_settled t.config.role) t.config.num_streams t.streams) [
        | none ↦ (t, false)
        | some left ↦ if left ==ℤ pos 0 then (record t { state = test_done }, true) else (t, false)
      ]
