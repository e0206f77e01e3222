-- ===== src/Simple/Serving.antt =====
-- When the small server ends (example/simple/bats_server_example.cc).
use bats_protocol_api.Connection.{listen_stopped}
use bats_protocol_api.Prelude.{
  if◌then◌else◌, List, ◌≡◌, ◌∷◌, [], true, false, inl, ◌⊎◌, inr, Bool-cases, ap, arith, refl, ◌∙◌,
  Bool,
}
use bats_protocol_api.Simple.Server.{
  serve, ServerHappening, on_listen_event, on_connection_event, server_happen_all, BatsServer,
  server_happen, listener_callback, on_listener, data_received_callback, is_serving,
  set_connection_callback_call, server_signalled,
}
use bats_protocol_api.Connection.{
  BatsListenEvent, BatsConnEvent, connection_closed, connection_shutdown_by_peer,
  listen_new_connection, listen_none, listen_failed, listen_success, listen_accepted_error,
  listen_already_in_listen,
}
use bats_protocol_api.Prelude.Results.{Result, ok, ◌>>=◌}

-- A new connection comes with the connection.
abbrev pub IsGiven : ServerHappening → Type 0
IsGiven (listener_callback event same_user has_conn) = has_conn ≡ true
IsGiven other = Unit

abbrev pub AllGiven : List ServerHappening → Type 0
AllGiven [] = Unit
AllGiven (now ∷ later) = IsGiven now × AllGiven later

-- A connection that ends.
abbrev pub IsEnd : ServerHappening → Type 0
IsEnd (data_received_callback event) =
    (event ≡ connection_closed) ⊎ (event ≡ connection_shutdown_by_peer)
IsEnd other = ⊥

abbrev pub HasEnd : List ServerHappening → Type 0
HasEnd [] = ⊥
HasEnd (now ∷ later) = IsEnd now ⊎ HasEnd later

abbrev pub AllSleepsGiven : List (List ServerHappening) → Type 0
AllSleepsGiven [] = Unit
AllSleepsGiven (now ∷ later) = AllGiven now × AllSleepsGiven later

abbrev pub AnyEnd : List (List ServerHappening) → Type 0
AnyEnd [] = ⊥
AnyEnd (now ∷ later) = HasEnd now ⊎ AnyEnd later

on_connection_event-stopped :
    (event : BatsConnEvent) (s : BatsServer)
    → s.is_stopped ≡ true
    → (on_connection_event event s).is_stopped ≡ true
unfolding on_connection_event
on_connection_event-stopped event s h = ground arith

-- What a callback comes to, which ends or not.
record Handled (Ends : Type 0) (s : BatsServer) (r : Result BatsServer) : Type 0 where
  after : BatsServer
  runs : r ≡ ok after
  keeps : s.is_stopped ≡ true → after.is_stopped ≡ true
  ends : Ends → after.is_stopped ≡ true

on_connection_event-ends :
    (event : BatsConnEvent) (s : BatsServer)
    → IsEnd (data_received_callback event)
    → (on_connection_event event s).is_stopped ≡ true
unfolding on_connection_event
on_connection_event-ends event s (inl e) = rw e refl
on_connection_event-ends event s (inr e) = rw e refl

unchanged : (s : BatsServer) → Handled ⊥ s (ok s)
unchanged s = record { after = s; runs = refl; keeps = λ h. h; ends = λ no. absurd no }

on_listen_event-Handled :
    (event : BatsListenEvent) (s : BatsServer) → Handled ⊥ s (on_listen_event event true s)
unfolding on_listen_event
on_listen_event-Handled listen_new_connection s = record {
  after = record s { calls = set_connection_callback_call ∷ s.calls };
  runs = refl;
  keeps = λ h. h;
  ends = λ no. absurd no;
}
on_listen_event-Handled listen_none s = unchanged s
on_listen_event-Handled listen_failed s = unchanged s
on_listen_event-Handled listen_success s = unchanged s
on_listen_event-Handled listen_accepted_error s = unchanged s
on_listen_event-Handled listen_already_in_listen s = unchanged s
on_listen_event-Handled listen_stopped s = unchanged s

server_happen-Handled :
    (h : ServerHappening) (s : BatsServer) → IsGiven h → Handled (IsEnd h) s (server_happen h s)
unfolding server_happen on_listener
server_happen-Handled (data_received_callback event) s given = record {
  after = on_connection_event event s;
  runs = refl;
  keeps = on_connection_event-stopped event s;
  ends = on_connection_event-ends event s;
}
server_happen-Handled (listener_callback event true has_conn) s given =
    rw given (on_listen_event-Handled event s)
server_happen-Handled (listener_callback event false has_conn) s given =
    let h = on_listen_event-Handled event (record s { is_stopped = true }) in
    rw given
      (record { after = h.after; runs = h.runs; keeps = λ k. h.keeps refl; ends = λ no. absurd no })
server_happen-Handled (server_signalled value) s given = record {
  after = record s { stop_signal_value = value };
  runs = refl;
  keeps = λ h. h;
  ends = λ no. absurd no;
}

server_happen_all-Handled :
    (hs : List ServerHappening) (s : BatsServer)
    → AllGiven hs
    → Handled (HasEnd hs) s (server_happen_all hs s)
unfolding server_happen_all
server_happen_all-Handled [] s given = record {
  after = s;
  runs = refl;
  keeps = λ h. h;
  ends = λ no. absurd no;
}
server_happen_all-Handled (now ∷ later) s given =
    let h = server_happen-Handled now s given.0 in
    let k = server_happen_all-Handled later h.after given.1 in
    record {
      after = k.after;
      runs = rw h.runs k.runs;
      keeps = λ y. k.keeps (h.keeps y);
      ends = λ e. elim e [ inl x ↦ k.keeps (h.ends x) | inr x ↦ k.ends x ];
    }

serve-stopped :
    (sleeps : List (List ServerHappening)) (s : BatsServer)
    → is_serving s ≡ false
    → serve sleeps s ≡ ok s
unfolding serve
serve-stopped [] s n = rw n refl
serve-stopped (now ∷ later) s n =
    ap (λ (b : Bool). if b then (server_happen_all now s >>= λ t. serve later t) else ok s) n

not_serving : (s : BatsServer) → s.is_stopped ≡ true → is_serving s ≡ false
not_serving s h = ground (arith, h)

serve-step :
    (now : List ServerHappening) (later : List (List ServerHappening)) (s t : BatsServer)
    → is_serving s ≡ true
    → server_happen_all now s ≡ ok t
    → serve (now ∷ later) s ≡ serve later t
unfolding serve
serve-step now later s t y e = rw e (ap (λ (b : Bool). if b then serve later t else ok s) y)

-- New connections come with their connection. Where a connection is closed, or shut down by its
-- peer, in any of the sleeps, the server's loop comes to an end, whatever else happens: also where
-- the user context is another, and where other signals follow.
pub serve-ends :
    (sleeps : List (List ServerHappening)) (s : BatsServer)
    → AllSleepsGiven sleeps
    → AnyEnd sleeps
    → (t : BatsServer) × (serve sleeps s ≡ ok t) × (is_serving t ≡ false)
serve-ends [] s given e = absurd e
serve-ends (now ∷ later) s given e = elim (Bool-cases (is_serving s)) [
  | inr n ↦ (s, serve-stopped (now ∷ later) s n, n)
  | inl y ↦
      let h = server_happen_all-Handled now s given.0 in
      elim e [
        | inl x ↦
            let n = not_serving h.after (h.ends x) in
            (h.after, serve-step now later s h.after y h.runs ∙ serve-stopped later h.after n, n)
        | inr x ↦
            let (t, q, n) = serve-ends later h.after given.1 x in
            (t, serve-step now later s h.after y h.runs ∙ q, n)
      ]
]
