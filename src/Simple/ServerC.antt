-- ===== src/Simple/ServerC.antt =====
-- example/simple/bats_server_c_example.c: the small server over the C interface, which sends back what
-- it receives.
pub mod Handles
use bats_protocol_api.Prelude.{
  ℕ, Bool, List, ◌∷◌, ◌+◌, not, [], none, if◌then◌else◌, false, ◌==◌, true, some, ◌&&◌,
}
use bats_protocol_api.Prelude.Int.{ℤ, pos, negsuc}
use bats_protocol_api.Connection.{
  BatsConnEvent, BatsListenEvent, listen_new_connection, connection_data_received,
  connection_shutdown_by_peer, connection_closed,
}
use bats_protocol_api.Prelude.Octets.{Octets}
use bats_protocol_api.Prelude.Results.{Result, ok, fault, waiting, ◌>>=◌}
use bats_protocol_api.Prelude.Numerals.{stoi, in_int}
use bats_protocol_api.Api.Process.{sigint}

-- What the protocol library hands out.
pub data Handle : Type 0 where
  context_handle config_handle protocol_handle : Handle

-- Which of its calls the library refuses.
pub record CLibrary : Type 0 where
  pub has_context : Bool
  pub has_config : Bool
  pub has_protocol : Bool
  pub listens : Bool

pub data CCall : Type 0 where
  created destroyed : Handle → CCall
  -- The mode, the certificate and the key.
  configured : ℤ → Octets → Octets → CCall
  listen_called set_callback_called : CCall
  sent_back : Octets → CCall

-- A callback of a connection, with the data; a callback of the listener; or a signal.
pub data CHappening : Type 0 where
  connection_called : BatsConnEvent → Octets → CHappening
  listener_called : BatsListenEvent → CHappening
  c_signalled : ℕ → CHappening

pub record CServer : Type 0 where
  pub stop_signal_value : ℕ
  pub is_stopped : Bool
  pub recv_cnt : ℕ
  pub calls : List CCall

-- What SendData answers is not looked at.
unfoldable pub bats_connection_callback : BatsConnEvent → Octets → CServer → CServer
bats_connection_callback connection_data_received octets s = record s {
  recv_cnt = s.recv_cnt + 1;
  calls = sent_back octets ∷ s.calls;
}
bats_connection_callback connection_shutdown_by_peer octets s = record s { is_stopped = true }
bats_connection_callback connection_closed octets s = record s { is_stopped = true }
bats_connection_callback other octets s = s

unfoldable pub bats_listener_callback : BatsListenEvent → CServer → CServer
bats_listener_callback listen_new_connection s = record s { calls = set_callback_called ∷ s.calls }
bats_listener_callback other s = s

unfoldable pub c_happen : CHappening → CServer → CServer
c_happen (connection_called event octets) s = bats_connection_callback event octets s
c_happen (listener_called event) s = bats_listener_callback event s
c_happen (c_signalled value) s = record s { stop_signal_value = value }

unfoldable pub c_happen_all : List CHappening → CServer → CServer
c_happen_all [] s = s
c_happen_all (now ∷ later) s = c_happen_all later (c_happen now s)

abbrev pub c_is_serving : CServer → Bool
c_is_serving s = not (s.stop_signal_value == sigint) && not s.is_stopped

unfoldable pub c_serve : List (List CHappening) → CServer → Result CServer
c_serve [] s = if c_is_serving s then fault waiting else ok s
c_serve (now ∷ later) s =
    let next = c_serve later (c_happen_all now s) in if c_is_serving s then next else ok s

-- atoi, which gives 0 where it reads no number; a number that is no int has no defined result.
abbrev pub atoi : Octets → ℤ
atoi text = elim (stoi text) [ none ↦ pos 0 | some n ↦ n ]

abbrev pub with_call : CCall → CServer → CServer
with_call call s = record s { calls = call ∷ s.calls }

-- The handles go in the order opposite to the one in which they came.
abbrev pub clean_up : List Handle → CServer → CServer
clean_up [] s = s
clean_up (handle ∷ handles) s = clean_up handles (with_call (destroyed handle) s)

unfoldable pub c_listen : CLibrary → List (List CHappening) → CServer → Result (ℤ × CServer)
c_listen lib sleeps s =
    let handles = protocol_handle ∷ config_handle ∷ context_handle ∷ [] in
    let t = with_call listen_called (with_call (created protocol_handle) s) in
    if not lib.listens
    then ok (negsuc 0, clean_up handles t)
    else (do u ← c_serve sleeps t; ok (pos 0, clean_up handles u))

unfoldable pub c_run :
    CLibrary → Octets → Octets → ℤ → List (List CHappening) → Result (ℤ × CServer)
c_run lib cert_file key_file mode sleeps =
    let s : CServer = record {
      stop_signal_value = 0;
      is_stopped = false;
      recv_cnt = 0;
      calls = [];
    } in
    let t = with_call (created context_handle) s in
    let u = with_call (configured mode cert_file key_file) (with_call (created config_handle) t) in
    if not lib.has_context
    then ok (negsuc 0, s)
    else if not lib.has_config
    then ok (negsuc 0, clean_up (context_handle ∷ []) t)
    else if not lib.has_protocol
    then ok (negsuc 0, clean_up (config_handle ∷ context_handle ∷ []) u)
    else c_listen lib sleeps u

-- `main`: the exit code, and the server at the end; `args` has not the program's name.
unfoldable pub c_main : CLibrary → List Octets → List (List CHappening) → Result (ℤ × CServer)
c_main lib (cert_file ∷ key_file ∷ []) sleeps = c_run lib cert_file key_file (pos 0) sleeps
c_main lib (cert_file ∷ key_file ∷ mode ∷ []) sleeps =
    c_run lib cert_file key_file (atoi mode) sleeps
c_main lib args sleeps =
    ok (negsuc 0, record { stop_signal_value = 0; is_stopped = false; recv_cnt = 0; calls = [] })
