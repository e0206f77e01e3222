-- ===== src/Stream/Control.antt =====
-- example/iperf-bats/iperf_stream.cc: the constructors, the connection's callback, StartConnect,
-- StartRecv, SwitchDataBlockLength and Stop.
pub mod Retries
pub mod Filling
use bats_protocol_api.Stream.Send.{Round, send_loop}
use bats_protocol_api.Prelude.{not, List}
use bats_protocol_api.Prelude.{
  ℕ, ◌+◌, ◌-◌, ◌%◌, Bool, true, false, not, ◌&&◌, Option, some, none, [], leb, ltb, if◌then◌else◌,
  length, replicate,
}
use bats_protocol_api.Prelude.Int.{ℤ, pos, ◌==ℤ◌}
use bats_protocol_api.Prelude.Octets.{Octets}
use bats_protocol_api.Prelude.Results.{
  Result, ok, fault, assertion, null_pointer, require, ◌>>=◌, ◌>>◌,
}
use bats_protocol_api.Prelude.Floating.{Floating}
use bats_protocol_api.Common.{TestRole, role_sender, role_receiver, TestReport, magic_code}
use bats_protocol_api.Common.Config.{TestConfig}
use bats_protocol_api.Connection.{
  BatsConnEvent, connection_established, connection_closed, connection_shutdown_by_peer,
  connection_buffer_full, connection_writable, connection_send_data_error,
  connection_ideal_buffer_length, connection_failed, connection_timeout, connection_data_received,
  trans_mode, frame_type_for,
}
use bats_protocol_api.Stream.{
  Platform, Float, IperfStream, TestHeader, Clock, Sending, stream_none, stream_done, conn_none,
  conn_connecting, conn_connected, conn_disconnected, emit, create_protocol, start_connect,
  stop_connection, set_callback, notify_one, is_connected_state,
}
use bats_protocol_api.Stream.Header.{iperf_char, test_header_size}
use bats_protocol_api.Stream.Report.{finish_report, u64_mod}
use bats_protocol_api.Stream.Receive.{default_interval}
use bats_protocol_api.Stream.Arrival.{update_received}

abbrev pub max_connect_retry : ℕ
max_connect_retry = 3

-- A call of the callback. `ideal` is what the connection's GetIdealBufferLength answers; the `data`
-- of an arrival has the `length` of the call.
pub record Callback : Type 0 where
  pub event : BatsConnEvent
  pub conn : ℕ
  pub payload : Option Octets
  pub length : ℕ
  pub ideal : ℕ
  pub clock : Clock
  pub sending : Sending

-- `max_bats_iperf_buffer_for_rc` for BRCTP, else `max_bats_iperf_buffer`.
unfoldable pub buffer_size : ℤ → ℕ
buffer_size protocol = if protocol ==ℤ pos 2 then 60000000 else 150000

-- The filling behind the header.
unfoldable pub filling : ℕ → Octets
filling size = replicate (size - test_header_size) iperf_char

-- The header of a filled buffer, 0x77 in every octet, with the two fields that are set.
unfoldable pub first_header : ℕ → TestHeader
first_header identifier = record {
  magic = magic_code;
  stream_identifier = identifier;
  seq = 0x7777777777777777;
  time = 0x7777777777777777;
  grp_id = 1;
  last = 1;
  ack = 1;
  has_interval = 0;
  reserved = 7;
  interval_id = 0x7777;
}

unfoldable pub first_report : (F : Floating) → F.Float → TestReport F.Float
unfolding default_interval
first_report F interval = record {
  last_snapshot_time = 0;
  interval = interval;
  snapshot_cnt = 0;
  summary = default_interval F;
  last_interval = default_interval F;
  last_snapshot = default_interval F;
}

abbrev is_receiver : TestRole → Bool
is_receiver role_receiver = true
is_receiver _ = false

module _ {P : Platform} where
  open P.floating use {of_nat, times, to_int}

  pub blank : P.Recorder → TestConfig (Float P) → ℕ → ℕ → IperfStream P
  unfolding first_header first_report
  blank recorder config id identifier = record {
    config = config;
    stream_identifier = identifier;
    is_sum_printed = false;
    is_sum_received = false;
    is_fin_received = false;
    is_fin_acked = false;
    is_writable = false;
    has_err_in_send = false;
    is_stopped = false;
    conn_state = conn_none;
    state = stream_none;
    connector = false;
    connect_retry_cnt = 0;
    stream_id = id;
    sender_report = first_report P.floating config.interval;
    receiver_report = first_report P.floating config.interval;
    data_conn = none;
    header = first_header identifier;
    body = filling (buffer_size config.protocol);
    ideal_length = 0;
    last_grp_id = none;
    seq_of_last_changed_grp_id = 0;
    recorder = recorder;
    diffs = [];
    is_first_jitter_calculation = true;
    calls = [];
  }

  -- The sender's constructor; `id` is the counter of streams, `recorder` a new recorder.
  unfoldable pub new_connecting : P.Recorder → TestConfig (Float P) → ℕ → ℕ → IperfStream P
  unfolding blank trans_mode frame_type_for
  new_connecting recorder config id now =
      emit
        (create_protocol (record {
          transport_mode = trans_mode config.protocol;
          frame_type = frame_type_for config.protocol;
          remote_addr = [];
          remote_port = pos 0;
          connection_timeout = to_int (times (times config.interval config.time) (of_nat 1000));
        }))
        (record (blank recorder config id ((now + id) % u64_mod)) { connector = true })

  -- The lengths are `int`s that the library gives, and not negative.
  unfoldable pub switch_data_block_length : ℕ → IperfStream P → Result (IperfStream P)
  switch_data_block_length ideal s = do
    require (ltb 0 ideal) assertion
    require (leb ideal (test_header_size + length s.body)) assertion
    ok (record s { ideal_length = ideal })

  -- The receiver's constructor, for an accepted connection.
  unfoldable pub new_accepted :
      P.Recorder → TestConfig (Float P) → ℕ → ℕ → ℕ → Result (IperfStream P)
  unfolding blank switch_data_block_length
  new_accepted recorder config id conn ideal =
      switch_data_block_length ideal
        (record (blank recorder config id 0) { data_conn = some conn; conn_state = conn_connected })

  unfoldable pub start_connecting : IperfStream P → Result (IperfStream P)
  start_connecting s = do
    require s.connector assertion
    ok (
        emit (start_connect s.config.peer_host s.config.port)
          (record s { conn_state = conn_connecting }))

  start_recv_as : TestRole → IperfStream P → Result (IperfStream P)
  start_recv_as role_receiver s = elim s.data_conn [
    | none ↦ fault null_pointer
    | some conn ↦ ok (emit (set_callback conn) s)
  ]
  start_recv_as _ s = ok s

  unfoldable pub start_recv : IperfStream P → Result (IperfStream P)
  unfolding start_recv_as
  start_recv s = start_recv_as s.config.role s

  unfoldable pub stop : ℕ → IperfStream P → IperfStream P
  unfolding finish_report
  stop now s =
      if s.is_stopped
      then s
      else (let t = record s { is_stopped = true } in
          let u =
            if is_receiver s.config.role && not s.is_fin_received then finish_report now t else t in
          let v = record u { state = stream_done; conn_state = conn_disconnected } in
          record (if v.connector then emit (stop_connection v.data_conn) v else v) {
            data_conn = none;
            connector = false;
          })

  -- The thread that StartSend starts: a stream that is not connected is stopped.
  unfoldable pub send_thread : List Round → Clock → Sending → IperfStream P → Result (IperfStream P)
  send_thread rounds clock sending s =
      if not (is_connected_state s.conn_state)
      then ok (stop clock.monotonic s)
      else send_loop rounds clock sending 0 s

  established_as : TestRole → Callback → IperfStream P → Result (IperfStream P × Bool)
  unfolding switch_data_block_length
  established_as role_sender call s = do
    t ←
        switch_data_block_length call.ideal
          (record s { conn_state = conn_connected; data_conn = some call.conn })
    ok (t, true)
  established_as _ call s = ok (s, true)

  -- A failed or timed out connection is tried again, three times.
  reconnect : Callback → IperfStream P → Result (IperfStream P × Bool)
  unfolding start_connecting
  reconnect call s =
      if ltb s.connect_retry_cnt max_connect_retry
      then (do
        require s.connector null_pointer
        t ← start_connecting (emit (stop_connection (some call.conn)) s)
        ok (record t { connect_retry_cnt = s.connect_retry_cnt + 1 }, true))
      else ok (s, true)

  dispatch : BatsConnEvent → Callback → IperfStream P → Result (IperfStream P × Bool)
  unfolding established_as reconnect switch_data_block_length
  dispatch connection_established call s = established_as s.config.role call s
  dispatch connection_closed call s = ok (record s { conn_state = conn_disconnected }, true)
  dispatch connection_shutdown_by_peer call s =
      ok (record s { conn_state = conn_disconnected }, true)
  dispatch connection_buffer_full call s = ok (record s { is_writable = true }, true)
  dispatch connection_writable call s = ok (emit notify_one (record s { is_writable = true }), true)
  dispatch connection_send_data_error call s = ok (record s { has_err_in_send = true }, true)
  dispatch connection_ideal_buffer_length call s = do
    t ← switch_data_block_length call.length s
    ok (t, true)
  dispatch connection_failed call s = reconnect call s
  dispatch connection_timeout call s = reconnect call s
  dispatch connection_data_received call s = update_received call.clock call.sending call.payload s
  dispatch _ call s = ok (s, true)

  unfoldable pub connection_callback : Callback → IperfStream P → Result (IperfStream P × Bool)
  unfolding dispatch
  connection_callback call s = dispatch call.event call s
