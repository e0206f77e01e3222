-- ===== src/Simple/Server.antt =====
-- example/simple/bats_server_example.cc: the small server, its two callbacks and the loop of main.
use bats_protocol_api.Connection.{
  BatsListenEvent, BatsConnEvent, connection_closed, connection_shutdown_by_peer, trans_mode,
  listen_new_connection,
}
use bats_protocol_api.Prelude.{
  List, Bool, ℕ, true, Option, not, if◌then◌else◌, ◌∷◌, none, [], ◌==◌, false, some, ◌&&◌,
}
use bats_protocol_api.Prelude.Results.{
  Result, ok, ◌>>◌, fault, ◌>>=◌, require, waiting, null_pointer, or_fault, exception,
}
use bats_protocol_api.Prelude.Octets.{Octets}
use bats_protocol_api.Prelude.Int.{ℤ, pos, negsuc}
use bats_protocol_api.Api.Process.{sigint}
use bats_protocol_api.Prelude.Numerals.{stoi}

-- What other threads do during a sleep: a callback of a connection; a callback of the listener, with
-- whether `user` is the context that was given, and whether there is a `new_conn`; or a signal.

pub data ServerHappening : Type 0 where
  data_received_callback : BatsConnEvent → ServerHappening
  listener_callback : BatsListenEvent → Bool → Bool → ServerHappening
  server_signalled : ℕ → ServerHappening

-- `start_listen_call` has the mode and the two files.
pub data ServerCall : Type 0 where
  start_listen_call : ℕ → Octets → Octets → ServerCall
  set_connection_callback_call : ServerCall

-- The two static variables.
pub record BatsServer : Type 0 where
  pub stop_signal_value : ℕ
  pub is_stopped : Bool
  pub calls : List ServerCall

unfoldable pub on_connection_event : BatsConnEvent → BatsServer → BatsServer
on_connection_event connection_closed s = record s { is_stopped = true }
on_connection_event connection_shutdown_by_peer s = record s { is_stopped = true }
on_connection_event other s = s

unfoldable pub on_listen_event : BatsListenEvent → Bool → BatsServer → Result BatsServer
on_listen_event listen_new_connection has_conn s = do
  require has_conn null_pointer
  ok (record s { calls = set_connection_callback_call ∷ s.calls })
on_listen_event other has_conn s = ok s

-- Another context stops the server, and the event is handled all the same.
unfoldable pub on_listener : BatsListenEvent → Bool → Bool → BatsServer → Result BatsServer
on_listener event same_user has_conn s =
    on_listen_event event has_conn (if same_user then s else record s { is_stopped = true })

unfoldable pub server_happen : ServerHappening → BatsServer → Result BatsServer
server_happen (data_received_callback event) s = ok (on_connection_event event s)
server_happen (listener_callback event same_user has_conn) s =
    on_listener event same_user has_conn s
server_happen (server_signalled value) s = ok (record s { stop_signal_value = value })

unfoldable pub server_happen_all : List ServerHappening → BatsServer → Result BatsServer
server_happen_all [] s = ok s
server_happen_all (now ∷ later) s = do t ← server_happen now s; server_happen_all later t

abbrev pub is_serving : BatsServer → Bool
is_serving s = not (s.stop_signal_value == sigint) && not s.is_stopped

unfoldable pub serve : List (List ServerHappening) → BatsServer → Result BatsServer
serve [] s = if is_serving s then fault waiting else ok s
serve (now ∷ later) s =
    let next = (do t ← server_happen_all now s; serve later t) in
    if is_serving s then next else ok s

-- The exit code, and the server behind its loop, if it came to that.
unfoldable pub listen_with :
    Octets → Octets → ℤ → List (List ServerHappening) → Result (ℤ × Option BatsServer)
listen_with cert_file key_file mode sleeps = do
  s ← serve sleeps (record {
    stop_signal_value = 0;
    is_stopped = false;
    calls = start_listen_call (trans_mode mode) cert_file key_file ∷ [];
  })
  ok (pos 0, some s)

unfoldable pub with_files :
    (Octets → Bool)
    → Octets
    → Octets
    → Option Octets
    → List (List ServerHappening)
    → Result (ℤ × Option BatsServer)
with_files exists cert_file key_file last sleeps =
    if not (exists cert_file)
    then ok (pos 0, none)
    else if not (exists key_file)
    then ok (pos 0, none)
    else elim last [
      | none ↦ listen_with cert_file key_file (pos 0) sleeps
      | some text ↦ (do
        mode ← or_fault (stoi text) exception
        listen_with cert_file key_file mode sleeps)
    ]

-- `main`; `args` has not the program's name.
unfoldable pub server_main :
    (Octets → Bool) → List Octets → List (List ServerHappening) → Result (ℤ × Option BatsServer)
server_main exists (cert_file ∷ key_file ∷ []) sleeps =
    with_files exists cert_file key_file none sleeps
server_main exists (cert_file ∷ key_file ∷ mode ∷ []) sleeps =
    with_files exists cert_file key_file (some mode) sleeps
server_main exists args sleeps = ok (negsuc 0, none)
