-- ===== src/Simple/Calls.antt =====
-- What the small client hands to the protocol library (example/simple/bats_client_example.cc,
-- ConnectionCallback and StartSend).
use bats_protocol_api.Simple.{
  start_connect, SenderRound, max_timeout_cnt, await_connection, send_all,
}
use bats_protocol_api.Simple.Steps.{
  Yields, AllSleeps, AllRounds, Yields-bind, await_connection-Yields, send_all-Yields,
}
use bats_protocol_api.Prelude.{arith, ◌&&◌, leb, ◌⊎◌, refl, false, ap}
use bats_protocol_api.Connection.{
  BatsConnEvent, connection_established, connection_ideal_buffer_length, connection_none,
  connection_failed, connection_timeout, connection_shutdown_by_peer, connection_writable,
  connection_data_received, connection_send_complete, connection_send_data_error,
  connection_buffer_full, connection_closed, connection_error, connection_already_connected,
  connection_all_data_acked,
}
use bats_protocol_api.Simple.{
  with_quota, send_once, on_event, BatsSender, Happening, happen, start_send, reconnect, called,
  SenderCall, ConnectionEvent, is_sending, new_sender, established, signalled,
  update_data_block_length, send_data_call, fits_buffer, start_connect_call,
}
use bats_protocol_api.Prelude.{List, ◌≡◌, Bool, Bool-cases, true, ◌∷◌, ◌==◌, inl, some, inr, []}
use bats_protocol_api.Prelude.Results.{Fault, waiting, ok, fault, Result, assertion}
use bats_protocol_api.Prelude.Int.{ℤ}

-- What the protocol library gives with an event: with an established connection, the connection. The
-- lengths that it announces are any numbers.
abbrev pub Announces : BatsConnEvent → ConnectionEvent → Type 0
Announces connection_established e = (i : ℤ) × (e.ideal ≡ some i)
Announces other e = Unit

abbrev pub IsSound : Happening → Type 0
IsSound (called e) = Announces e.event e
IsSound (signalled value) = Unit

abbrev pub AllFit : List SenderCall → Type 0
AllFit [] = Unit
AllFit (start_connect_call ∷ calls) = AllFit calls
AllFit (send_data_call n accepted ∷ calls) = (fits_buffer n ≡ true) × AllFit calls

-- A loop that still waits, or the assertion of UpdateDataBlockLength.
abbrev pub IsAllowed : Fault → Type 0
IsAllowed e = (e ≡ waiting) ⊎ (e ≡ assertion)

-- Where the client is connected, it has the connection and a length.
pub record IsUsable (s : BatsSender) : Type 0 where
  pub has : s.is_connected ≡ true → s.bats_connection ≡ true
  pub fits : s.is_connected ≡ true → fits_buffer s.cur_ideal_length ≡ true
  pub all_fit : AllFit s.calls

on_event-IsUsable :
    (v : BatsConnEvent) (e : ConnectionEvent) (s : BatsSender)
    → Announces v e
    → IsUsable s
    → Yields IsAllowed IsUsable (on_event v e s)
unfolding on_event established update_data_block_length
on_event-IsUsable connection_none e s a u = u
on_event-IsUsable connection_failed e s a u = record {
  has = u.has;
  fits = u.fits;
  all_fit = u.all_fit;
}
on_event-IsUsable connection_established e s (i, given) u = elim (Bool-cases (fits_buffer i)) [
  | inl fit ↦ rw (given, fit) (record { has = λ c. refl; fits = λ c. fit; all_fit = u.all_fit })
  | inr large ↦ rw (given, large) (inr refl)
]
on_event-IsUsable connection_timeout e s a u = u
on_event-IsUsable connection_shutdown_by_peer e s a u = record {
  has = λ c. cc;
  fits = λ c. cc;
  all_fit = u.all_fit;
}
on_event-IsUsable connection_writable e s a u = record {
  has = u.has;
  fits = u.fits;
  all_fit = u.all_fit;
}
on_event-IsUsable connection_data_received e s a u = record {
  has = u.has;
  fits = u.fits;
  all_fit = u.all_fit;
}
on_event-IsUsable connection_send_complete e s a u = u
on_event-IsUsable connection_send_data_error e s a u = u
on_event-IsUsable connection_buffer_full e s a u = record {
  has = u.has;
  fits = u.fits;
  all_fit = u.all_fit;
}
on_event-IsUsable connection_closed e s a u = record {
  has = λ c. cc;
  fits = λ c. cc;
  all_fit = u.all_fit;
}
on_event-IsUsable connection_error e s a u = u
on_event-IsUsable connection_already_connected e s a u = u
on_event-IsUsable connection_ideal_buffer_length e s a u =
    elim (Bool-cases (fits_buffer e.length)) [
      | inl fit ↦ rw fit (record { has = u.has; fits = λ c. fit; all_fit = u.all_fit })
      | inr large ↦ rw large (inr refl)
    ]
on_event-IsUsable connection_all_data_acked e s a u = u

happen-IsUsable :
    (h : Happening) (s : BatsSender)
    → IsSound h
    → IsUsable s
    → Yields IsAllowed IsUsable (happen h s)
unfolding happen
happen-IsUsable (called e) s a u = on_event-IsUsable e.event e s a u
happen-IsUsable (signalled value) s a u = record { has = u.has; fits = u.fits; all_fit = u.all_fit }

reconnect-IsUsable : (s : BatsSender) → IsUsable s → IsUsable (reconnect s)
unfolding reconnect start_connect
reconnect-IsUsable s u =
    elim (Bool-cases (s.is_connect_failed && leb max_timeout_cnt s.timeout_cnt)) [
      | inl y ↦ rw y (record { has = u.has; fits = u.fits; all_fit = u.all_fit })
      | inr n ↦ rw n (record { has = u.has; fits = u.fits; all_fit = u.all_fit })
    ]

with_quota-IsUsable : (s : BatsSender) → IsUsable s → IsUsable (with_quota s)
unfolding with_quota
with_quota-IsUsable s u = elim (Bool-cases (s.send_quota == 0)) [
  | inl y ↦ rw y (record { has = u.has; fits = u.fits; all_fit = u.all_fit })
  | inr n ↦ rw n u
]

connected_of : (s : BatsSender) → is_sending s ≡ true → s.is_connected ≡ true
connected_of s h = ground arith

send_once-IsUsable :
    (accepted : Bool) (s : BatsSender)
    → is_sending s ≡ true
    → IsUsable s
    → Yields IsAllowed IsUsable (send_once accepted s)
unfolding send_once
send_once-IsUsable accepted s h u =
    let c = connected_of s h in
    elim (Bool-cases s.is_writable) [
      | inl y ↦
          rw (y, u.has c)
            (record { has = λ k. refl; fits = u.fits; all_fit = (u.fits c, u.all_fit) })
      | inr n ↦ rw n (record { has = u.has; fits = u.fits; all_fit = u.all_fit })
    ]

start_send-IsUsable :
    (sleeps : List (List Happening)) (rounds : List SenderRound) (s : BatsSender)
    → AllSleeps IsSound sleeps
    → AllRounds IsSound rounds
    → IsUsable s
    → Yields IsAllowed (λ t. IsUsable t × (is_sending t ≡ false)) (start_send sleeps rounds s)
unfolding start_send
start_send-IsUsable sleeps rounds s a b u =
    Yields-bind IsAllowed IsUsable (λ t. IsUsable t × (is_sending t ≡ false))
      (await_connection sleeps s) (λ t. send_all rounds (with_quota t))
      (await_connection-Yields IsAllowed IsUsable IsSound happen-IsUsable (inl refl)
        reconnect-IsUsable sleeps s a u)
      (λ t v.
        send_all-Yields IsAllowed IsUsable IsSound happen-IsUsable (inl refl) send_once-IsUsable
          rounds (with_quota t) b (with_quota-IsUsable t v))

abbrev FitsOrEnds : Result BatsSender → Type 0
FitsOrEnds r =
    ((s : BatsSender) × (r ≡ ok s) × AllFit s.calls) ⊎ ((r ≡ fault waiting) ⊎ (r ≡ fault assertion))

either :
    (P : BatsSender → Type 0) (r : Result BatsSender)
    → Yields IsAllowed (λ t. IsUsable t × P t) r
    → FitsOrEnds r
either P (ok s) h = inl (s, refl, h.0.all_fit)
either P (fault e) (inl h) = inr (inl (ap fault h))
either P (fault e) (inr h) = inr (inr (ap fault h))

-- The client runs with any events and any announced lengths, where an established connection comes
-- with the connection. StartSend comes to one of three ends: it returns, and then each block that was
-- handed to SendData has a length from 1 to the 150000 octets of the buffer; it still waits at the
-- end of the schedule; or the assertion on an announced length fails. It never meets a null pointer.
pub start_send-AllFit :
    (send_cnt mode : ℤ) (sleeps : List (List Happening)) (rounds : List SenderRound)
    → AllSleeps IsSound sleeps
    → AllRounds IsSound rounds
    → ((s : BatsSender) × (start_send sleeps rounds (start_connect (new_sender send_cnt mode))
          ≡ ok s)
        × AllFit s.calls)
      ⊎ ((start_send sleeps rounds (start_connect (new_sender send_cnt mode)) ≡ fault waiting)
          ⊎ (start_send sleeps rounds (start_connect (new_sender send_cnt mode)) ≡ fault assertion))
unfolding new_sender start_connect
start_send-AllFit send_cnt mode sleeps rounds a b =
    either (λ t. is_sending t ≡ false)
      (start_send sleeps rounds (start_connect (new_sender send_cnt mode)))
      (start_send-IsUsable sleeps rounds (start_connect (new_sender send_cnt mode)) a b
        (record { has = λ c. cc; fits = λ c. cc; all_fit = tt }))
