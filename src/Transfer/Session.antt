-- ===== src/Transfer/Session.antt =====
-- example/iperf-bats/iperf_file_transfer.cc: the constructors, Start, Stop, the messages on the
-- control channel, the two callbacks, IsStreamReady and IsStreamDone.

-- What std::filesystem says of a path: its size, if it can be read.
use bats_protocol_api.Prelude.Octets.{Octets, octets_eq}
use bats_protocol_api.Prelude.{
  List, ℕ, Bool, Option, false, if◌then◌else◌, suc, [], ◌%◌, ◌+◌, ◌==◌, ◌&&◌, length, ◌^◌, ◌∷◌,
  true, ◌++◌, none, some, not, ◌||◌, zero, drop, leb,
}
use bats_protocol_api.Prelude.Floating.{Floating}
use bats_protocol_api.Transfer.{
  Transfer, FileStream, File, TransferAction, break_all_wait, start_connect, new_stream,
  load_config, note, start_listen, send_control,
}
use bats_protocol_api.Common.Config.{TestConfig, serialize, deserialize, default_config}
use bats_protocol_api.Wire.{
  ControlHeader, encode, high_word, low_word, decode, join_words, header_size, in_buffer,
}
use bats_protocol_api.Connection.{BatsConfiguration, trans_mode, bats_header_v1}
use bats_protocol_api.Common.{role_receiver}
use bats_protocol_api.Prelude.Results.{
  Result, ◌>>=◌, ◌>>◌, ok, or_fault, require, null_pointer, out_of_bounds, assertion,
}
use bats_protocol_api.Prelude.Int.{wrap, pos, ◌-ℤ◌, pos_part}
use bats_protocol_api.Test.{test_done, test_none, test_exchange_parameters}
use bats_protocol_api.Stream.Receive.{signed32}
use bats_protocol_api.Test.Messages.{control_header}

abbrev pub Sizes : Type 0
Sizes = Octets → Option ℕ

abbrev pub mem_octets : Octets → List Octets → Bool
mem_octets x [] = false
mem_octets x (y ∷ ys) = octets_eq x y || mem_octets x ys

-- The queue and the total, from the paths behind those `seen` already; `i` counts all paths.
unfoldable pub enqueue : Sizes → List Octets → ℕ → List Octets → List File × ℕ
enqueue sizes seen i [] = ([], 0)
enqueue sizes seen i (path ∷ paths) =
    let (files, total) = enqueue sizes (path ∷ seen) (i + 1) paths in
    elim (sizes path) [
      | none ↦ (files, total)
      | some size ↦
          if mem_octets path seen
          then (files, total)
          else (record { bar_id = i; file_sz = size; path = path } ∷ files, (size + total) % 2 ^ 64)
    ]

stop_streams : List FileStream → List TransferAction → List TransferAction
stop_streams [] calls = calls
stop_streams (s ∷ streams) calls = stop_streams streams (break_all_wait s.id ∷ calls)

unfoldable pub data_config : (F : Floating) → TestConfig F.Float → BatsConfiguration
data_config F c = record {
  transport_mode = trans_mode c.protocol;
  frame_type = bats_header_v1;
  remote_addr = [];
  remote_port = pos 0;
  connection_timeout = pos 5000;
}

-- Whether a request is denied: the space is known, and not more than what is asked for.
abbrev pub is_denied : Option ℕ → ℕ → Bool
is_denied none total = false
is_denied (some space) total = leb space total

module _ {F : Floating} where
  unfoldable pub new_session : ℕ → TestConfig F.Float → Transfer F
  new_session id config = record {
    config = config;
    test_id = id % 2 ^ 32;
    ctrl_chn = none;
    state = test_none;
    has_printer = false;
    is_stopped = false;
    connector = false;
    streams = [];
    pending = [];
    disk = [];
    calls = [];
  }

  -- The sender's constructor; `id` is the time.
  unfoldable pub new_sending : Sizes → ℕ → TestConfig F.Float → Transfer F
  new_sending sizes id config =
      let (files, total) = enqueue sizes [] 0 config.files in
      record (new_session id (record config { total_bytes_in_files = total })) { pending = files }

  unfoldable pub start : Bool → Bool → Transfer F → Transfer F × Bool
  start has_key has_cert t =
      if has_key && has_cert
      then (
        note (start_connect (t.config.port -ℤ pos 1) none) (record t { connector = true }),
        true,
      )
      else (t, false)

  -- The threads are woken and joined, and their streams let go.
  unfoldable pub stop : Transfer F → Transfer F
  unfolding stop_streams
  stop t = if t.is_stopped then t else record t {
    is_stopped = true;
    state = test_done;
    streams = [];
    calls = stop_streams t.streams t.calls;
  }

  unfoldable pub send_message : Octets → Transfer F → Result (Transfer F)
  send_message message t = do
    require (not (t.test_id == 0)) assertion
    conn ← or_fault t.ctrl_chn null_pointer
    ok (note (send_control (in_buffer 300 message)) t)

  -- SendResponseOk with 0, SendResponseDenied with 1.
  unfoldable pub send_response : ℕ → Transfer F → Result (Transfer F)
  send_response code t =
      send_message (encode (record (control_header t.test_id 4 0) { param0 = code })) t

  -- The request says how many paths were given, and how many octets the queue has.
  unfoldable pub request_header : Transfer F → ControlHeader
  request_header t = record (control_header t.test_id 1 0) {
    num_of_streams = wrap 256 t.config.num_streams;
    param0 = length t.config.files % 2 ^ 32;
    param1 = high_word t.config.total_bytes_in_files;
    param2 = low_word t.config.total_bytes_in_files;
  }

  unfoldable pub send_file_transfer_request : Transfer F → Result (Transfer F)
  send_file_transfer_request t = do
    u ← send_message (encode (request_header t) ++ serialize F t.config) t
    ok (record u { state = test_exchange_parameters })

  -- `count` new streams with the numbers from `i` on, each of which asks for its connection.
  unfoldable pub open_streams : ℕ → ℕ → Transfer F → Transfer F
  open_streams i zero t = t
  open_streams i (suc count) t = open_streams (i + 1) count (
      note (start_connect t.config.port (some i))
        (record t { streams = t.streams ++ (new_stream i ∷ []) }))

  unfoldable pub on_recv_response : Transfer F → Result (Transfer F)
  on_recv_response t = do
    require t.connector null_pointer
    ok (
        open_streams 0 (pos_part t.config.num_streams)
          (note (load_config (data_config F t.config)) t))

  -- The request of a sender. `available` is the free space, if the file system says it.
  unfoldable pub handle_file_transfer_request :
      Option ℕ → ControlHeader → Octets → Transfer F → Result (Transfer F)
  handle_file_transfer_request available header body t = do
    received ← or_fault (deserialize F body (default_config F)) out_of_bounds
    let u = record t {
      config = record received {
        num_files = signed32 header.param0;
        is_debug_mode = t.config.is_debug_mode;
        resolution = t.config.resolution;
        role = role_receiver;
      };
    }
    if is_denied available (join_words header.param1 header.param2)
        then send_response 1 t
        else send_response 0 (note (start_listen (data_config F received) received.port) u)

  unfoldable pub handle_response : ControlHeader → Transfer F → Result (Transfer F)
  handle_response header t =
      if header.param0 == 0 then on_recv_response t else ok (stop (record t { ctrl_chn = none }))

  unfoldable pub handle_control_message : Option ℕ → ℕ → Octets → Transfer F → Result (Transfer F)
  unfolding handle_response
  handle_control_message available conn message t = do
    header ← or_fault (decode message) out_of_bounds
    require (header.test_id == t.test_id) assertion
    require (header.action_code == 1 || header.action_code == 4) assertion
    if header.action_code == 4
        then handle_response header t
        else handle_file_transfer_request available header (drop header_size message)
            (record t { ctrl_chn = some conn })
