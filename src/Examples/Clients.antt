-- ===== src/Examples/Clients.antt =====
-- Tests of the small client: it sleeps once, is connected, and sends two blocks in three rounds.
use bats_protocol_api.Connection.{listen_new_connection, connection_data_received}
use bats_protocol_api.Simple.ServerC.{
  created, CHappening, CLibrary, CServer, c_main, c_run, destroyed, listener_called, context_handle,
  c_listen, connection_called, config_handle, c_serve, c_happen_all, protocol_handle, sent_back,
  c_happen, bats_connection_callback, set_callback_called, bats_listener_callback, listen_called,
  configured,
}
use bats_protocol_api.Connection.{connection_closed, listen_new_connection}
use bats_protocol_api.Simple.{
  start_connect, await_connection, happen_all, happen, on_event, established,
  update_data_block_length, reconnect, with_quota, send_all, send_once,
}
use bats_protocol_api.Simple.Sending.{connects}
use bats_protocol_api.Prelude.{
  Bool, List, replicate, ◌+◌, ◌≡◌, true, [], false, ◌*◌, ◌∷◌, ◌++◌, ◌⊎◌, ◌≤◌, length, arith, refl,
  inr, inl, some,
}
use bats_protocol_api.Simple.{
  BatsSender, start_send, Happening, SenderRound, new_sender, send_data_call, start_connect_call,
  is_sending,
}
use bats_protocol_api.Simple.Sending.{accepted_blocks, limit, start_send_lem}
use bats_protocol_api.Prelude.Int.{pos}
use bats_protocol_api.Prelude.Results.{ok, fault, waiting, assertion}
use bats_protocol_api.Simple.Calls.{AllFit, start_send-AllFit}
use bats_protocol_api.Simple.Ending.{opening, start_send-sends}
use bats_protocol_api.Simple.Server.{
  ServerHappening, BatsServer, serve, listener_callback, is_serving, data_received_callback,
  server_signalled,
}
use bats_protocol_api.Simple.Serving.{serve-ends}
use bats_protocol_api.Simple.ServerC.Handles.{held, c_main-held}

abbrev answer : Bool → SenderRound
answer accepted = record { happenings = []; accepted = accepted }

abbrev answers : List SenderRound
answers = answer true ∷ answer false ∷ answer true ∷ []

abbrev asleep : List (List Happening)
asleep = [] ∷ opening (pos 1000) ∷ []

abbrev client_after : BatsSender
client_after = record {
  send_quota = 0;
  recv_cnt = 0;
  timeout_cnt = 2;
  cur_ideal_length = pos 1000;
  is_connect_failed = false;
  is_connected = true;
  is_writable = true;
  bats_connection = true;
  bats_mode = 1;
  stop_signal_value = 0;
  calls =
      send_data_call (pos 1000) true
      ∷ send_data_call (pos 1000) false
      ∷ send_data_call (pos 1000) true
      ∷ start_connect_call
      ∷ [];
}

abbrev client_before : BatsSender
client_before = start_connect (new_sender (pos 2) (pos 1))

sends_two : start_send asleep answers client_before ≡ ok client_after
unfolding start_send start_connect new_sender await_connection happen_all happen on_event
    established update_data_block_length reconnect with_quota send_all send_once
sends_two = refl

start_send-AllFit_example :
    ((s : BatsSender) × (start_send asleep answers client_before ≡ ok s) × AllFit s.calls)
    ⊎ ((start_send asleep answers client_before ≡ fault waiting)
        ⊎ (start_send asleep answers client_before ≡ fault assertion))
start_send-AllFit_example =
    start_send-AllFit (pos 2) (pos 1) asleep answers (tt, (((pos 1000, refl), (tt, tt)), tt))
      (tt, (tt, (tt, tt)))

start_send_example :
    (accepted_blocks client_after.calls + client_after.send_quota ≡ limit 2)
    × (30 * connects client_after.calls ≤ 30 + length asleep)
    × (is_sending client_after ≡ false)
start_send_example = start_send_lem 2 (pos 1) asleep answers client_after (omega arith) sends_two

start_send-sends_example :
    (s : BatsSender) × (start_send
        (replicate 1 [] ++ (opening (pos 1000) ∷ []))
        answers
        client_before
      ≡ ok s)
    × (accepted_blocks s.calls ≡ 2)
    × (s.is_connected ≡ true)
start_send-sends_example =
    start_send-sends 2 (pos 1) (pos 1000) 1 [] answers (omega arith) (omega arith) refl
      (refl, (refl, (refl, tt))) (omega arith)

abbrev closing : List (List ServerHappening)
closing =
    []
    ∷ (listener_callback listen_new_connection true true ∷ [])
    ∷ (data_received_callback connection_closed ∷ server_signalled 15 ∷ [])
    ∷ []

abbrev listening : BatsServer
listening = record { stop_signal_value = 0; is_stopped = false; calls = [] }

serve-ends_example : (t : BatsServer) × (serve closing listening ≡ ok t) × (is_serving t ≡ false)
serve-ends_example =
    serve-ends closing listening (tt, ((refl, tt), ((tt, (tt, tt)), tt)))
      (inr (inr (inl (inl (inl refl)))))

-- A library that refuses nothing, and a client that sends a block and closes.
abbrev hearing : CLibrary
hearing = record { has_context = true; has_config = true; has_protocol = true; listens = true }

abbrev one_client : List (List CHappening)
one_client =
    (listener_called listen_new_connection
      ∷ connection_called connection_data_received (1 ∷ 2 ∷ [])
      ∷ connection_called connection_closed []
      ∷ [])
    ∷ []

abbrev served : CServer
served = record {
  stop_signal_value = 0;
  is_stopped = true;
  recv_cnt = 1;
  calls =
      destroyed context_handle
      ∷ destroyed config_handle
      ∷ destroyed protocol_handle
      ∷ sent_back (1 ∷ 2 ∷ [])
      ∷ set_callback_called
      ∷ listen_called
      ∷ created protocol_handle
      ∷ configured (pos 0) (99 ∷ []) (107 ∷ [])
      ∷ created config_handle
      ∷ created context_handle
      ∷ [];
}

serves_one : c_main hearing ((99 ∷ []) ∷ (107 ∷ []) ∷ []) one_client ≡ ok (pos 0, served)
unfolding c_main c_run c_listen c_serve c_happen_all c_happen bats_connection_callback
    bats_listener_callback
serves_one = refl

c_main-held_example : held served.calls ≡ some []
c_main-held_example = c_main-held hearing ((99 ∷ []) ∷ (107 ∷ []) ∷ []) one_client serves_one
