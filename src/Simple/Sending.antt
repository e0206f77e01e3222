-- ===== src/Simple/Sending.antt =====
-- How many blocks the small client sends, and how often it connects (example/simple/
-- bats_client_example.cc, StartSend).
use bats_protocol_api.Prelude.{if◌then◌else◌, refl, ◌<◌, ◌-◌, ◌==◌, length, ◌^◌}
use bats_protocol_api.Simple.{
  start_connect, established, Happening, send_once, update_data_block_length, reconnect, on_event,
  happen, BatsSender, SenderCall, SenderRound, called, ConnectionEvent, is_sending, signalled,
  send_data_call, fits_buffer, send_all, start_connect_call, start_send, await_connection,
  new_sender, is_awaiting, with_quota, happen_all,
}
use bats_protocol_api.Prelude.{
  List, ℕ, Bool, ◌≡◌, ◌+◌, arith, Option, ◌*◌, some, Bool-cases, ◌∷◌, suc, subst, ◌≤◌, false, true,
  sym, inl, [], none, inr,
}
use bats_protocol_api.Prelude.Results.{Fault, ok, >>=-ok}
use bats_protocol_api.Prelude.Int.{ℤ, pos}
use bats_protocol_api.Connection.{
  BatsConnEvent, connection_established, connection_ideal_buffer_length, connection_none,
  connection_failed, connection_timeout, connection_shutdown_by_peer, connection_writable,
  connection_data_received, connection_send_complete, connection_send_data_error,
  connection_buffer_full, connection_closed, connection_error, connection_already_connected,
  connection_all_data_acked,
}
use bats_protocol_api.Simple.Steps.{
  Yields, Yields-mono, Yields-bind, send_all-Yields, all_rounds, await_connection-Yields,
  all_sleeps, happen_all-Yields, all_happen, Yields-ok,
}

abbrev pub accepted_blocks : List SenderCall → ℕ
accepted_blocks [] = 0
accepted_blocks (start_connect_call ∷ calls) = accepted_blocks calls
accepted_blocks (send_data_call n accepted ∷ calls) =
    if accepted then suc (accepted_blocks calls) else accepted_blocks calls

abbrev pub connects : List SenderCall → ℕ
connects [] = 0
connects (start_connect_call ∷ calls) = suc (connects calls)
connects (send_data_call n accepted ∷ calls) = connects calls

abbrev pub AnyFault : Fault → Type 0
AnyFault e = Unit

abbrev pub Anything : Happening → Type 0
Anything h = Unit

-- What no event changes: the calls, the quota and the count of sleeps.
abbrev counts : BatsSender → List SenderCall × (ℕ × ℕ)
counts s = (s.calls, (s.send_quota, s.timeout_cnt))

abbrev Same : BatsSender → BatsSender → Type 0
Same s t = counts t ≡ counts s

update-Same :
    (n : ℤ) (r s : BatsSender) → Same r s → Yields AnyFault (Same r) (update_data_block_length n s)
unfolding update_data_block_length
update-Same n r s l = elim (Bool-cases (fits_buffer n)) [ inl y ↦ rw y l | inr f ↦ rw f tt ]

established-Same :
    (ideal : Option ℤ) (s : BatsSender) → Yields AnyFault (Same s) (established ideal s)
unfolding established
established-Same none s = tt
established-Same (some n) s =
    Yields-bind AnyFault (Same s) (Same s)
      (update_data_block_length n (record s { bats_connection = true }))
      (λ t. ok (record t { is_connected = true }))
      (update-Same n s (record s { bats_connection = true }) refl) (λ t l. l)

on_event-Same :
    (v : BatsConnEvent) (e : ConnectionEvent) (s : BatsSender)
    → Yields AnyFault (Same s) (on_event v e s)
unfolding on_event
on_event-Same connection_established e s = established-Same e.ideal s
on_event-Same connection_ideal_buffer_length e s = update-Same e.length s s refl
on_event-Same connection_none e s = refl
on_event-Same connection_failed e s = refl
on_event-Same connection_timeout e s = refl
on_event-Same connection_shutdown_by_peer e s = refl
on_event-Same connection_writable e s = refl
on_event-Same connection_data_received e s = refl
on_event-Same connection_send_complete e s = refl
on_event-Same connection_send_data_error e s = refl
on_event-Same connection_buffer_full e s = refl
on_event-Same connection_closed e s = refl
on_event-Same connection_error e s = refl
on_event-Same connection_already_connected e s = refl
on_event-Same connection_all_data_acked e s = refl

happen-Same : (h : Happening) (s : BatsSender) → Yields AnyFault (Same s) (happen h s)
unfolding happen
happen-Same (called e) s = on_event-Same e.event e s
happen-Same (signalled value) s = refl

-- What is said of the counts alone, every event keeps.
happen-counts :
    (T : List SenderCall × (ℕ × ℕ) → Type 0) (h : Happening) (s : BatsSender)
    → Anything h
    → T (counts s)
    → Yields AnyFault (λ t. T (counts t)) (happen h s)
happen-counts T h s a k =
    Yields-mono AnyFault (Same s) (λ t. T (counts t)) (happen h s) (happen-Same h s)
      (λ t q. subst T (sym q) k)

-- `quota` blocks are accepted or left, over `n` calls of StartConnect.
abbrev Tally : ℕ → ℕ → List SenderCall × (ℕ × ℕ) → Type 0
Tally quota n (calls, (left, sleeps)) =
    (accepted_blocks calls + left ≡ quota) × (connects calls ≡ n)

pub quota_left : (s : BatsSender) → is_sending s ≡ true → 0 < s.send_quota
quota_left s h = ground arith

-- One answer of SendData.
counted :
    (accepted : Bool) (sent left quota : ℕ)
    → 0 < left
    → sent + left ≡ quota
    → (if accepted then suc sent else sent) + (if accepted then left - 1 else left) ≡ quota
counted true sent left quota l e = omega arith
counted false sent left quota l e = e

send_once-Tally :
    (quota n : ℕ) (accepted : Bool) (s : BatsSender)
    → is_sending s ≡ true
    → Tally quota n (counts s)
    → Yields AnyFault (λ t. Tally quota n (counts t)) (send_once accepted s)
unfolding send_once
send_once-Tally quota n accepted s h k = elim (Bool-cases s.is_writable) [
  | inr w ↦ rw w k
  | inl w ↦ elim (Bool-cases s.bats_connection) [
    | inr b ↦ rw (w, b) tt
    | inl b ↦
        rw (w, b)
          (counted accepted (accepted_blocks s.calls) s.send_quota quota (quota_left s h) k.0, k.1)
  ]
]

send_all-Tally :
    (quota n : ℕ) (rounds : List SenderRound) (s : BatsSender)
    → Tally quota n (counts s)
    → Yields AnyFault (λ t. Tally quota n (counts t) × (is_sending t ≡ false)) (send_all rounds s)
send_all-Tally quota n rounds s k =
    send_all-Yields AnyFault (λ t. Tally quota n (counts t)) Anything
      (happen-counts (Tally quota n)) tt (send_once-Tally quota n) rounds s
      (all_rounds Anything (λ h. tt) rounds) k

-- A call of StartConnect costs thirty sleeps.
abbrev Paid : ℕ → List SenderCall × (ℕ × ℕ) → Type 0
Paid paid (calls, (left, sleeps)) = 30 * connects calls + sleeps ≤ paid

reconnect-Paid :
    (paid : ℕ) (s : BatsSender) → Paid paid (counts s) → Paid (paid + 1) (counts (reconnect s))
unfolding reconnect start_connect
reconnect-Paid paid s k = ground arith

abbrev Unsent : ℕ → List SenderCall × (ℕ × ℕ) → Type 0
Unsent quota (calls, (left, sleeps)) = (accepted_blocks calls ≡ 0) × (left ≡ quota)

reconnect-Unsent :
    (quota : ℕ) (s : BatsSender) → Unsent quota (counts s) → Unsent quota (counts (reconnect s))
unfolding reconnect start_connect
reconnect-Unsent quota s k = ground arith

await_connection-Paid :
    (sleeps : List (List Happening)) (paid : ℕ) (s : BatsSender)
    → Paid paid (counts s)
    → Yields AnyFault (λ t. Paid (paid + length sleeps) (counts t)) (await_connection sleeps s)
unfolding await_connection
await_connection-Paid [] paid s k = elim (Bool-cases (is_awaiting s)) [
  | inl y ↦ rw y tt
  | inr n ↦ rw n (omega arith)
]
await_connection-Paid (now ∷ later) paid s k = elim (Bool-cases (is_awaiting s)) [
  | inl y ↦ rw y (
      Yields-bind AnyFault (λ t. Paid paid (counts t))
        (λ t. Paid (paid + suc (length later)) (counts t)) (happen_all now s)
        (λ t. await_connection later (reconnect t))
        (happen_all-Yields AnyFault (λ t. Paid paid (counts t)) Anything (happen-counts (Paid paid))
          now s (all_happen Anything (λ h. tt) now) k)
        (λ t p.
          Yields-mono AnyFault (λ u. Paid (paid + 1 + length later) (counts u))
            (λ u. Paid (paid + suc (length later)) (counts u))
            (await_connection later (reconnect t))
            (await_connection-Paid later (paid + 1) (reconnect t) (reconnect-Paid paid t p))
            (λ u q. omega arith)))
  | inr n ↦ rw n (omega arith)
]

await_connection-Unsent :
    (sleeps : List (List Happening)) (quota : ℕ) (s : BatsSender)
    → Unsent quota (counts s)
    → Yields AnyFault (λ t. Unsent quota (counts t)) (await_connection sleeps s)
await_connection-Unsent sleeps quota s k =
    await_connection-Yields AnyFault (λ t. Unsent quota (counts t)) Anything
      (happen-counts (Unsent quota)) tt (reconnect-Unsent quota) sleeps s
      (all_sleeps Anything (λ h. tt) sleeps) k

-- The blocks that `send_cnt` asks for: without a count there is no limit but the counter's.
abbrev pub limit : ℕ → ℕ
limit send_cnt = if send_cnt == 0 then 2 ^ 64 - 1 else send_cnt

with_quota-Tally :
    (quota : ℕ) (s : BatsSender)
    → Unsent quota (counts s)
    → Tally (limit quota) (connects s.calls) (counts (with_quota s))
unfolding with_quota
with_quota-Tally quota s (sent, left) = elim (Bool-cases (s.send_quota == 0)) [
  | inl z ↦ ground (arith, z)
  | inr y ↦ ground (arith, y)
]

-- The client is asked for a number of blocks, and sleeps any number of times before it is connected.
-- Whatever the connection does, where StartSend comes to an end: the accepted blocks and the quota
-- that is left are the number of blocks that it was asked for, or 2^64 - 1 for the number 0; there
-- were at most one call of StartConnect for each 30 sleeps, and the first; and the connection is
-- closed, or nothing is left to send, or the process was interrupted.
pub start_send_lem :
    (send_cnt : ℕ) (mode : ℤ) (sleeps : List (List Happening)) (rounds : List SenderRound)
    (s : BatsSender)
    → send_cnt < 2 ^ 31
    → start_send sleeps rounds (start_connect (new_sender (pos send_cnt) mode)) ≡ ok s
    → (accepted_blocks s.calls + s.send_quota ≡ limit send_cnt)
      × (30 * connects s.calls ≤ 30 + length sleeps)
      × (is_sending s ≡ false)
unfolding start_send new_sender start_connect
start_send_lem send_cnt mode sleeps rounds s small e =
    let s₀ = start_connect (new_sender (pos send_cnt) mode) in
    let (t, awaited, sent) =
      >>=-ok (await_connection sleeps s₀) (λ t. send_all rounds (with_quota t)) e in
    let unsent =
      Yields-ok AnyFault (λ t. Unsent send_cnt (counts t)) (await_connection sleeps s₀)
        (await_connection-Unsent sleeps send_cnt s₀ (refl, omega arith)) awaited in
    let paid =
      Yields-ok AnyFault (λ t. Paid (30 + length sleeps) (counts t)) (await_connection sleeps s₀)
        (await_connection-Paid sleeps 30 s₀ (omega arith)) awaited in
    let done =
      Yields-ok AnyFault
        (λ u. Tally (limit send_cnt) (connects t.calls) (counts u) × (is_sending u ≡ false))
        (send_all rounds (with_quota t))
        (send_all-Tally (limit send_cnt) (connects t.calls) rounds (with_quota t)
          (with_quota-Tally send_cnt t unsent))
        sent in
    (done.0.0, subst (λ n. 30 * n ≤ 30 + length sleeps) (sym done.0.1) (omega arith), done.1)
