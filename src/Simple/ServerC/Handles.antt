-- ===== src/Simple/ServerC/Handles.antt =====
-- The handles that the server over the C interface holds (example/simple/
-- bats_server_c_example.c).
use bats_protocol_api.Simple.ServerC.{
  context_handle, config_handle, protocol_handle, c_main, CLibrary, c_run, c_listen, with_call,
  c_is_serving, atoi, clean_up,
}
use bats_protocol_api.Simple.ServerC.{
  c_happen, c_happen_all, Handle, c_serve, bats_connection_callback, CHappening, CCall, CServer,
  bats_listener_callback, created, destroyed, configured, sent_back, listen_called,
  set_callback_called,
}
use bats_protocol_api.Prelude.{List, Option, some, ◌≡◌, ◌∷◌, arith, ◌∙◌, none, [], refl, not}
use bats_protocol_api.Prelude.Results.{
  ok, Ensures, Ensures-if, Ensures-at, fault, waiting, ◌>>=◌, Ensures-mono, Ensures-bind,
}
use bats_protocol_api.Prelude.Int.{ℤ, pos, negsuc}
use bats_protocol_api.Prelude.Octets.{Octets}

abbrev pub pop : Handle → List Handle → Option (List Handle)
pop context_handle (context_handle ∷ handles) = some handles
pop config_handle (config_handle ∷ handles) = some handles
pop protocol_handle (protocol_handle ∷ handles) = some handles
pop handle handles = none

-- The handles that are held behind the calls, of which the last one stands first; none where a
-- handle was destroyed that was not the newest held.
abbrev pub held : List CCall → Option (List Handle)
held [] = some []
held (created handle ∷ older) = elim (held older) [ none ↦ none | some hs ↦ some (handle ∷ hs) ]
held (destroyed handle ∷ older) = elim (held older) [ none ↦ none | some hs ↦ pop handle hs ]
held (configured mode cert_file key_file ∷ older) = held older
held (listen_called ∷ older) = held older
held (set_callback_called ∷ older) = held older
held (sent_back octets ∷ older) = held older

c_happen-held : (h : CHappening) (s : CServer) → held (c_happen h s).calls ≡ held s.calls
unfolding c_happen bats_connection_callback bats_listener_callback
c_happen-held h s = ground arith

c_happen_all-held :
    (hs : List CHappening) (s : CServer) → held (c_happen_all hs s).calls ≡ held s.calls
unfolding c_happen_all
c_happen_all-held [] s = refl
c_happen_all-held (now ∷ later) s = c_happen_all-held later (c_happen now s) ∙ c_happen-held now s

c_serve-held :
    (sleeps : List (List CHappening)) (s : CServer)
    → Ensures (λ t. held t.calls ≡ held s.calls) (c_serve sleeps s)
unfolding c_serve
c_serve-held [] s =
    Ensures-if (λ t. held t.calls ≡ held s.calls) (c_is_serving s) (fault waiting) (ok s) tt refl
c_serve-held (now ∷ later) s =
    Ensures-if (λ t. held t.calls ≡ held s.calls) (c_is_serving s)
      (c_serve later (c_happen_all now s)) (ok s)
      (Ensures-mono (λ t. held t.calls ≡ held (c_happen_all now s).calls)
        (λ t. held t.calls ≡ held s.calls) (c_serve later (c_happen_all now s))
        (c_serve-held later (c_happen_all now s)) (λ t e. e ∙ c_happen_all-held now s))
      refl

abbrev Released : ℤ × CServer → Type 0
Released (code, s) = held s.calls ≡ some []

c_listen-Released :
    (lib : CLibrary) (sleeps : List (List CHappening)) (s : CServer)
    → held s.calls ≡ some (config_handle ∷ context_handle ∷ [])
    → Ensures Released (c_listen lib sleeps s)
unfolding c_listen
c_listen-Released lib sleeps s h =
    let t = with_call listen_called (with_call (created protocol_handle) s) in
    let handles = protocol_handle ∷ config_handle ∷ context_handle ∷ [] in
    let all : held t.calls ≡ some handles = rw h refl in
    Ensures-if Released (not lib.listens) (ok (negsuc 0, clean_up handles t))
      (c_serve sleeps t >>= λ u. ok (pos 0, clean_up handles u)) (rw h refl)
      (Ensures-bind (λ u. held u.calls ≡ held t.calls) Released (c_serve sleeps t)
        (λ u. ok (pos 0, clean_up handles u)) (c_serve-held sleeps t) (λ u e. rw (e ∙ all) refl))

c_run-Released :
    (lib : CLibrary) (cert_file key_file : Octets) (mode : ℤ) (sleeps : List (List CHappening))
    → Ensures Released (c_run lib cert_file key_file mode sleeps)
unfolding c_run
c_run-Released lib cert_file key_file mode sleeps =
    Ensures-if Released (not lib.has_context) _ _ refl (
      Ensures-if Released (not lib.has_config) _ _ refl
        (Ensures-if Released (not lib.has_protocol) _ _ refl (c_listen-Released lib sleeps _ refl)))

c_main-Released :
    (lib : CLibrary) (args : List Octets) (sleeps : List (List CHappening))
    → Ensures Released (c_main lib args sleeps)
unfolding c_main
c_main-Released lib [] sleeps = refl
c_main-Released lib (a ∷ []) sleeps = refl
c_main-Released lib (a ∷ b ∷ []) sleeps = c_run-Released lib a b (pos 0) sleeps
c_main-Released lib (a ∷ b ∷ c ∷ []) sleeps = c_run-Released lib a b (atoi c) sleeps
c_main-Released lib (a ∷ b ∷ c ∷ d ∷ more) sleeps = refl

-- Wherever main of the server over the C interface returns, with a wrong number of arguments, after
-- any call that the library refuses, and behind the loop: it has given back all the handles that it
-- got, each of them once and the newest first.
pub c_main-held :
    (lib : CLibrary) (args : List Octets) (sleeps : List (List CHappening)) {code : ℤ} {s : CServer}
    → c_main lib args sleeps ≡ ok (code, s)
    → held s.calls ≡ some []
c_main-held lib args sleeps e =
    Ensures-at Released (c_main lib args sleeps) (c_main-Released lib args sleeps) e
