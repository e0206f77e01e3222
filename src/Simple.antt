-- ===== src/Simple.antt =====
-- example/simple: the small client (bats_client_example.cc), which connects, connects again after a
-- failure, and sends a number of blocks; the child Server has the small server
-- (bats_server_example.cc), and the other children what the client keeps to.
pub mod Server
pub mod Serving
pub mod ServerC
pub mod Steps
pub mod Calls
pub mod Sending
pub mod Ending
use bats_protocol_api.Connection.{
  BatsConnEvent, BatsConfiguration, trans_mode, bats_header_v1, connection_failed,
  connection_closed, connection_shutdown_by_peer, connection_established, connection_data_received,
  connection_buffer_full, connection_writable, connection_ideal_buffer_length,
}
use bats_protocol_api.Prelude.{
  ◌∷◌, Option, ℕ, Bool, List, if◌then◌else◌, not, ◌&&◌, ◌^◌, true, ◌==◌, leb, [], false, ◌-◌, ◌+◌,
  ◌%◌,
}
use bats_protocol_api.Prelude.Int.{ℤ, ltb_ℤ, wrap, pos}
use bats_protocol_api.Prelude.Results.{
  Result, ok, ◌>>◌, ◌>>=◌, or_fault, require, fault, assertion, waiting, null_pointer, exception,
}
use bats_protocol_api.Prelude.Octets.{Octets, codes}
use bats_protocol_api.Api.Process.{sigint}
use bats_protocol_api.Prelude.Numerals.{stoi}

-- A call of ConnectionCallback: `ideal` is what `new_conn->GetIdealBufferLength()` gives, if there is
-- a connection.
pub record ConnectionEvent : Type 0 where
  pub event : BatsConnEvent
  pub ideal : Option ℤ
  pub length : ℤ

-- What other threads do between two steps of the sending thread: a callback, or a signal.
pub data Happening : Type 0 where
  called : ConnectionEvent → Happening
  signalled : ℕ → Happening

-- What the client asked of the protocol library. A block of `send_data` is so many of the first
-- octets of the buffer, which has 0x0f in all places.
pub data SenderCall : Type 0 where
  start_connect_call : SenderCall
  send_data_call : ℤ → Bool → SenderCall

-- The class BATSSender, with the static `stop_signal_value`; `bats_connection` tells whether the
-- pointer is set.
pub record BatsSender : Type 0 where
  pub send_quota : ℕ
  pub recv_cnt : ℕ
  pub timeout_cnt : ℕ
  pub cur_ideal_length : ℤ
  pub is_connect_failed : Bool
  pub is_connected : Bool
  pub is_writable : Bool
  pub bats_connection : Bool
  pub bats_mode : ℕ
  pub stop_signal_value : ℕ
  pub calls : List SenderCall

abbrev pub default_buffer_max_sz : ℕ
default_buffer_max_sz = 150000

abbrev pub max_timeout_cnt : ℕ
max_timeout_cnt = 30

-- `send_cnt` is an int, and the quota a uint64_t.
unfoldable pub new_sender : ℤ → ℤ → BatsSender
new_sender send_cnt mode = record {
  send_quota = wrap (2 ^ 64) send_cnt;
  recv_cnt = 0;
  timeout_cnt = 0;
  cur_ideal_length = pos 0;
  is_connect_failed = false;
  is_connected = false;
  is_writable = false;
  bats_connection = false;
  bats_mode = wrap 256 mode;
  stop_signal_value = 0;
  calls = [];
}

-- `ideal_length > 0 && ideal_length <= default_buffer_max_sz`
abbrev pub fits_buffer : ℤ → Bool
fits_buffer ideal_length =
    ltb_ℤ (pos 0) ideal_length && not (ltb_ℤ (pos default_buffer_max_sz) ideal_length)

unfoldable pub update_data_block_length : ℤ → BatsSender → Result BatsSender
update_data_block_length ideal_length s = do
  require (fits_buffer ideal_length) assertion
  ok (record s { cur_ideal_length = ideal_length })

unfoldable pub established : Option ℤ → BatsSender → Result BatsSender
established ideal s = do
  ideal_length ← or_fault ideal null_pointer
  t ← update_data_block_length ideal_length (record s { bats_connection = true })
  ok (record t { is_connected = true })

unfoldable pub on_event : BatsConnEvent → ConnectionEvent → BatsSender → Result BatsSender
on_event connection_failed e s = ok (record s { is_connect_failed = true })
on_event connection_closed e s = ok (record s { is_connected = false })
on_event connection_shutdown_by_peer e s =
    ok (record s { is_connected = false; is_connect_failed = true })
on_event connection_established e s = established e.ideal s
on_event connection_data_received e s = ok (record s { recv_cnt = (s.recv_cnt + 1) % 2 ^ 64 })
on_event connection_buffer_full e s = ok (record s { is_writable = false })
on_event connection_writable e s = ok (record s { is_writable = true })
on_event connection_ideal_buffer_length e s = update_data_block_length e.length s
on_event other e s = ok s

-- It returns true on every path.
abbrev pub connection_callback : ConnectionEvent → BatsSender → Result BatsSender
connection_callback e s = on_event e.event e s

unfoldable pub happen : Happening → BatsSender → Result BatsSender
happen (called e) s = connection_callback e s
happen (signalled value) s = ok (record s { stop_signal_value = value })

unfoldable pub happen_all : List Happening → BatsSender → Result BatsSender
happen_all [] s = ok s
happen_all (now ∷ later) s = do t ← happen now s; happen_all later t

unfoldable pub start_connect : BatsSender → BatsSender
start_connect s = record s { calls = start_connect_call ∷ s.calls }

-- The loop's body behind its sleep: after a failure it connects again, if it has slept 30 times
-- since the last time.
unfoldable pub reconnect : BatsSender → BatsSender
reconnect s =
    let t =
      if s.is_connect_failed && leb max_timeout_cnt s.timeout_cnt
      then start_connect (record s { timeout_cnt = 0; is_connect_failed = false })
      else s in
    record t { timeout_cnt = (t.timeout_cnt + 1) % 2 ^ 32 }

abbrev pub is_awaiting : BatsSender → Bool
is_awaiting s = not s.is_connected && not (s.stop_signal_value == sigint)

-- The first loop of StartSend, with what happens in each of its sleeps.
unfoldable pub await_connection : List (List Happening) → BatsSender → Result BatsSender
await_connection [] s = if is_awaiting s then fault waiting else ok s
await_connection (now ∷ later) s =
    let next = (do t ← happen_all now s; await_connection later (reconnect t)) in
    if is_awaiting s then next else ok s

-- One round of the second loop: what happens before it, and what SendData would answer.
pub record SenderRound : Type 0 where
  pub happenings : List Happening
  pub accepted : Bool

abbrev pub is_sending : BatsSender → Bool
is_sending s = s.is_connected && (not (s.send_quota == 0) && not (s.stop_signal_value == sigint))

unfoldable pub send_once : Bool → BatsSender → Result BatsSender
send_once accepted s = if not s.is_writable then ok s else (do
  require s.bats_connection null_pointer
  ok (record s {
    calls = send_data_call s.cur_ideal_length accepted ∷ s.calls;
    send_quota = if accepted then s.send_quota - 1 else s.send_quota;
  }))

unfoldable pub send_all : List SenderRound → BatsSender → Result BatsSender
send_all [] s = if is_sending s then fault waiting else ok s
send_all (round ∷ rounds) s = do
  t ← happen_all round.happenings s
  let next = (do u ← send_once round.accepted t; send_all rounds u)
  if is_sending t then next else ok t

-- `std::numeric_limits<uint64_t>::max()` stands for no limit.
unfoldable pub with_quota : BatsSender → BatsSender
with_quota s = if s.send_quota == 0 then record s { send_quota = 2 ^ 64 - 1 } else s

unfoldable pub start_send :
    List (List Happening) → List SenderRound → BatsSender → Result BatsSender
start_send sleeps rounds s = do t ← await_connection sleeps s; send_all rounds (with_quota t)

-- The numbers of the command line, 0 where they are not given; `args` has not the program's name.
unfoldable pub read_numbers : List Octets → Result (ℤ × ℤ)
read_numbers [] = ok (pos 0, pos 0)
read_numbers (count ∷ []) = do send_cnt ← or_fault (stoi count) exception; ok (send_cnt, pos 0)
read_numbers (count ∷ mode ∷ []) = do
  send_cnt ← or_fault (stoi count) exception
  transport ← or_fault (stoi mode) exception
  ok (send_cnt, transport)
read_numbers (count ∷ mode ∷ more ∷ others) = do
  send_cnt ← or_fault (stoi count) exception
  ok (send_cnt, pos 0)

-- `main`, with the configuration that it gives to the protocol library.
unfoldable pub client_main :
    List Octets → List (List Happening) → List SenderRound → Result (BatsConfiguration × BatsSender)
client_main args sleeps rounds = do
  (send_cnt, mode) ← read_numbers args
  s ← start_send sleeps rounds (start_connect (new_sender send_cnt mode))
  ok (
    record {
      transport_mode = trans_mode mode;
      frame_type = bats_header_v1;
      remote_addr = codes "127.0.0.1";
      remote_port = pos 13475;
      connection_timeout = pos 2000;
    },
    s,
  )
