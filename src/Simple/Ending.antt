-- ===== src/Simple/Ending.antt =====
-- That the small client comes to an end (example/simple/bats_client_example.cc, StartSend).
use bats_protocol_api.Simple.{start_connect}
use bats_protocol_api.Connection.{connection_established, connection_writable}
use bats_protocol_api.Prelude.{
  if◌then◌else◌, ◌<◌, Bool-cases, suc, ◌-◌, inr, ap, inl, ◌∙◌, refl, ◌%◌, ◌^◌, some, replicate,
  ◌++◌, none, zero,
}
use bats_protocol_api.Simple.Sending.{quota_left}
use bats_protocol_api.Prelude.{List, Bool, ◌≡◌, true, ◌∷◌, ◌≤◌, ℕ, [], ◌==◌, ◌+◌, arith, false}
use bats_protocol_api.Simple.{
  send_all, send_once, BatsSender, SenderRound, send_data_call, happen_all, is_sending,
  await_connection, reconnect, happen, Happening, on_event, called, is_awaiting, established,
  update_data_block_length, fits_buffer, with_quota, start_send, new_sender,
}
use bats_protocol_api.Prelude.Results.{ok, ◌>>=◌}
use bats_protocol_api.Simple.Sending.{accepted_blocks}
use bats_protocol_api.Api.Process.{sigint}
use bats_protocol_api.Prelude.Int.{ℤ, pos}

-- Rounds in which nothing happens, whatever SendData answers.

abbrev pub AllQuiet : List SenderRound → Type 0
AllQuiet [] = Unit
AllQuiet (round ∷ rounds) = (round.happenings ≡ []) × AllQuiet rounds

abbrev pub accepting : List SenderRound → ℕ
accepting [] = 0
accepting (round ∷ rounds) = if round.accepted then suc (accepting rounds) else accepting rounds

-- Connected, writable and not interrupted.
pub record IsOpen (s : BatsSender) : Type 0 where
  pub connected : s.is_connected ≡ true
  pub connection : s.bats_connection ≡ true
  pub writable : s.is_writable ≡ true
  pub running : (s.stop_signal_value == sigint) ≡ false

pub record AllSent (s t : BatsSender) : Type 0 where
  pub used : t.send_quota ≡ 0
  pub sent : accepted_blocks t.calls ≡ accepted_blocks s.calls + s.send_quota
  pub still : t.is_connected ≡ true

after_send : Bool → BatsSender → BatsSender
after_send accepted s = record s {
  calls = send_data_call s.cur_ideal_length accepted ∷ s.calls;
  send_quota = if accepted then s.send_quota - 1 else s.send_quota;
}

send_once_open :
    (accepted : Bool) (s : BatsSender)
    → IsOpen s
    → send_once accepted s ≡ ok (after_send accepted s)
unfolding send_once after_send
send_once_open accepted s o = simp (o.writable, o.connection)

-- One round of the loop, where it goes on.
send_all-step :
    (round : SenderRound) (rounds : List SenderRound) (s : BatsSender)
    → round.happenings ≡ []
    → IsOpen s
    → is_sending s ≡ true
    → send_all (round ∷ rounds) s ≡ send_all rounds (after_send round.accepted s)
unfolding send_all happen_all
send_all-step round rounds s q o y = rw q (
    ap (λ (b : Bool). if b then (send_once round.accepted s >>= λ u. send_all rounds u) else ok s) y
    ∙ ap (λ r. r >>= λ u. send_all rounds u) (send_once_open round.accepted s o))

send_all-stop :
    (round : SenderRound) (rounds : List SenderRound) (s : BatsSender)
    → round.happenings ≡ []
    → is_sending s ≡ false
    → send_all (round ∷ rounds) s ≡ ok s
unfolding send_all happen_all
send_all-stop round rounds s q n = rw q (
    ap (λ (b : Bool). if b then (send_once round.accepted s >>= λ u. send_all rounds u) else ok s)
      n)

-- An open client stops where nothing is left to send, and there only.
stopped_empty : (s : BatsSender) → IsOpen s → is_sending s ≡ false → s.send_quota ≡ 0
stopped_empty s o n = ground (arith, o.connected, o.running)

empty_stopped : (s : BatsSender) → s.send_quota ≡ 0 → is_sending s ≡ false
empty_stopped s z = ground arith

sent_nothing : (s : BatsSender) → IsOpen s → s.send_quota ≡ 0 → AllSent s s
sent_nothing s o z = record { used = z; sent = omega arith; still = o.connected }

after_send-IsOpen : (accepted : Bool) (s : BatsSender) → IsOpen s → IsOpen (after_send accepted s)
unfolding after_send
after_send-IsOpen accepted s o = record {
  connected = o.connected;
  connection = o.connection;
  writable = o.writable;
  running = o.running;
}

-- What was sent after one more answer.
after_send-AllSent :
    (accepted : Bool) (s t : BatsSender)
    → 0 < s.send_quota
    → AllSent (after_send accepted s) t
    → AllSent s t
unfolding after_send
after_send-AllSent true s t l a = record { used = a.used; sent = omega arith; still = a.still }
after_send-AllSent false s t l a = record { used = a.used; sent = a.sent; still = a.still }

after_send-enough :
    (accepted : Bool) (s : BatsSender) (n : ℕ)
    → s.send_quota ≤ (if accepted then suc n else n)
    → (after_send accepted s).send_quota ≤ n
unfolding after_send
after_send-enough true s n h = omega arith
after_send-enough false s n h = h

send_all-sends :
    (rounds : List SenderRound) (s : BatsSender)
    → AllQuiet rounds
    → s.send_quota ≤ accepting rounds
    → IsOpen s
    → (t : BatsSender) × (send_all rounds s ≡ ok t) × AllSent s t
unfolding send_all
send_all-sends [] s q enough o =
    (s, rw (empty_stopped s (omega arith)) refl, sent_nothing s o (omega arith))
send_all-sends (round ∷ rounds) s q enough o = elim (Bool-cases (is_sending s)) [
  | inr n ↦ (s, send_all-stop round rounds s q.0 n, sent_nothing s o (stopped_empty s o n))
  | inl y ↦
      let (t, e, a) =
        send_all-sends rounds (after_send round.accepted s) q.1
          (after_send-enough round.accepted s (accepting rounds) enough)
          (after_send-IsOpen round.accepted s o) in
      (
        t,
        send_all-step round rounds s q.0 o y ∙ e,
        after_send-AllSent round.accepted s t (quota_left s y) a,
      )
]

reconnect-counted :
    (s : BatsSender)
    → s.is_connect_failed ≡ false
    → reconnect s ≡ record s { timeout_cnt = (s.timeout_cnt + 1) % 2 ^ 32 }
unfolding reconnect
reconnect-counted s f = simp f

-- Sleeps in which nothing happens are only counted.
await_connection-quiet :
    (k : ℕ) (rest : List (List Happening)) (s : BatsSender)
    → s.is_connect_failed ≡ false
    → is_awaiting s ≡ true
    → (m : ℕ) × (await_connection (replicate k [] ++ rest) s
        ≡ await_connection rest (record s { timeout_cnt = m }))
unfolding await_connection happen_all
await_connection-quiet zero rest s f y = (s.timeout_cnt, refl)
await_connection-quiet (suc k) rest s f y =
    let u = record s { timeout_cnt = (s.timeout_cnt + 1) % 2 ^ 32 } in
    let (m, e) = await_connection-quiet k rest u f y in
    (
      m,
      ap (λ (b : Bool). if b then await_connection (replicate k [] ++ rest) (reconnect s) else ok s)
            y
          ∙ ap (await_connection (replicate k [] ++ rest)) (reconnect-counted s f)
          ∙ e,
    )

await_connection-ready :
    (sleeps : List (List Happening)) (s : BatsSender)
    → is_awaiting s ≡ false
    → await_connection sleeps s ≡ ok s
unfolding await_connection
await_connection-ready [] s n = rw n refl
await_connection-ready (now ∷ later) s n =
    ap
      (λ (b : Bool).
        if b then (happen_all now s >>= λ t. await_connection later (reconnect t)) else ok s)
      n

-- The connection is established, and writable.
abbrev pub opening : ℤ → List Happening
opening ideal =
    called (record { event = connection_established; ideal = some ideal; length = pos 0 })
    ∷ called (record { event = connection_writable; ideal = none; length = pos 0 })
    ∷ []

opened : ℤ → BatsSender → BatsSender
opened ideal s = record s {
  bats_connection = true;
  cur_ideal_length = ideal;
  is_connected = true;
  is_writable = true;
}

happen_all-opening :
    (ideal : ℤ) (s : BatsSender)
    → fits_buffer ideal ≡ true
    → happen_all (opening ideal) s ≡ ok (opened ideal s)
unfolding happen_all happen on_event established update_data_block_length opened
happen_all-opening ideal s fit = rw fit refl

await_connection-opening :
    (ideal : ℤ) (later : List (List Happening)) (s : BatsSender)
    → fits_buffer ideal ≡ true
    → s.is_connect_failed ≡ false
    → is_awaiting s ≡ true
    → await_connection (opening ideal ∷ later) s
      ≡ ok (record (opened ideal s) { timeout_cnt = (s.timeout_cnt + 1) % 2 ^ 32 })
unfolding await_connection opened
await_connection-opening ideal later s fit f y =
    ap
      (λ (b : Bool).
        if b
        then (happen_all (opening ideal) s >>= λ t. await_connection later (reconnect t))
        else ok s)
      y
    ∙ ap (λ r. r >>= λ t. await_connection later (reconnect t)) (happen_all-opening ideal s fit)
    ∙ ap (await_connection later) (reconnect-counted (opened ideal s) f)
    ∙ await_connection-ready later
        (record (opened ideal s) { timeout_cnt = (s.timeout_cnt + 1) % 2 ^ 32 }) refl

with_quota-given : (s : BatsSender) → 0 < s.send_quota → with_quota s ≡ s
unfolding with_quota
with_quota-given s h =
    ap (λ (b : Bool). if b then record s { send_quota = 2 ^ 64 - 1 } else s) not_zero
  where
    not_zero : (s.send_quota == 0) ≡ false
    not_zero = ground arith

-- The client is asked for one block or more. It sleeps any number of times, then the connection is
-- established, with an ideal length that the buffer has, and writable; from then on nothing else
-- happens, and SendData takes at least as many blocks, however often it refuses one in between. Then
-- StartSend comes to its end, with exactly that many blocks accepted and the connection still open.
pub start_send-sends :
    (send_cnt : ℕ) (mode ideal : ℤ) (k : ℕ) (later : List (List Happening))
    (rounds : List SenderRound)
    → 0 < send_cnt
    → send_cnt < 2 ^ 31
    → fits_buffer ideal ≡ true
    → AllQuiet rounds
    → send_cnt ≤ accepting rounds
    → (s : BatsSender) × (start_send
          (replicate k [] ++ (opening ideal ∷ later))
          rounds
          (start_connect (new_sender (pos send_cnt) mode))
        ≡ ok s)
      × (accepted_blocks s.calls ≡ send_cnt)
      × (s.is_connected ≡ true)
unfolding start_send new_sender start_connect opened
start_send-sends send_cnt mode ideal k later rounds some_blocks small fit quiet enough =
    let s₀ = start_connect (new_sender (pos send_cnt) mode) in
    let (m, slept) = await_connection-quiet k (opening ideal ∷ later) s₀ refl refl in
    let ready = record (opened ideal (record s₀ { timeout_cnt = m })) {
      timeout_cnt = (m + 1) % 2 ^ 32;
    } in
    let waited : await_connection (replicate k [] ++ (opening ideal ∷ later)) s₀ ≡ ok ready =
      slept ∙ await_connection-opening ideal later (record s₀ { timeout_cnt = m }) fit refl refl in
    let (s, sent, a) =
      send_all-sends rounds ready quiet (omega arith)
        (record { connected = refl; connection = refl; writable = refl; running = refl }) in
    (
      s,
      ap (λ r. r >>= λ t. send_all rounds (with_quota t)) waited
          ∙ ap (send_all rounds) (with_quota-given ready (omega arith))
          ∙ sent,
      omega arith,
      a.still,
    )
