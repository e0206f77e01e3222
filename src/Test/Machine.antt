-- ===== src/Test/Machine.antt =====
-- The state machine that iperf_test.h draws, and the messages of a control channel.
use bats_protocol_api.Prelude.{Option}
use bats_protocol_api.Prelude.{Option-cases, ap, none, some, ◌||◌}
use bats_protocol_api.Test.{
  TestState, test_exchange_parameters, IperfTest, Moment, test_start, test_exchange_reports,
  test_done, test_none, is_done, with_printer, print_recv_header,
}
use bats_protocol_api.Test.Messages.{acknowledged, send_ack, send_message}
use bats_protocol_api.Stream.{Platform, Float}
use bats_protocol_api.Prelude.{
  ◌≡◌, inr, inl, sym, arith, ◌∙◌, refl, Bool-cases, ◌==◌, Bool, if◌then◌else◌, true, false, List, ℕ,
  drop, ◌∷◌, [],
}
use bats_protocol_api.Test.Handlers.{
  handle_summary_message, handle_ready_message, try_print_summary, handle_test_parameters,
  handle_ack_message, ready_in, ack_in, read_reports, handle_action, with_parameters,
  handle_control_message, heard_on,
}
use bats_protocol_api.Prelude.Octets.{Octets}
use bats_protocol_api.Prelude.Results.{
  ok, Result-cases, Result, or_fault, >>=-ok, out_of_bounds, ◌>>=◌,
}
use bats_protocol_api.Wire.{ControlHeader, decode, header_size}
use bats_protocol_api.Common.{is_reliable_protocol}
use bats_protocol_api.Common.Config.{deserialize, default_config, TestConfig}

-- The state behind a message, by its action code: 4 is an acknowledgement, 2 the parameters and 3 the
-- summary. iperf_test.h draws an arrow for the acknowledgements of a sender, for the parameters in
-- TEST_NONE and for the summary in TEST_START; that a summary starts a test, and that parameters end
-- one that has started, it does not draw, nor that either of them moves a sender.
abbrev pub next_state : ℕ → TestState → TestState
next_state code test_none = if code == 2 || code == 3 then test_start else test_none
next_state code test_start = if code == 2 || code == 3 then test_done else test_start
next_state code test_exchange_parameters =
    if code == 4 then test_start else test_exchange_parameters
next_state code test_exchange_reports = if code == 4 then test_done else test_exchange_reports
next_state code test_done = test_done

acked : TestState → TestState
acked test_exchange_parameters = test_start
acked test_exchange_reports = test_done
acked state = state

next_state-ack : (code : ℕ) (s : TestState) → (code == 4) ≡ true → next_state code s ≡ acked s
unfolding acked
next_state-ack code test_none h = ground arith
next_state-ack code test_start h = ground arith
next_state-ack code test_exchange_parameters h = ground arith
next_state-ack code test_exchange_reports h = ground arith
next_state-ack code test_done h = refl

next_state-answer :
    (code : ℕ) (s : TestState)
    → (code == 2 || code == 3) ≡ true
    → next_state code s ≡ acknowledged s
unfolding acknowledged
next_state-answer code test_none h = ground arith
next_state-answer code test_start h = ground arith
next_state-answer code test_exchange_parameters h = ground arith
next_state-answer code test_exchange_reports h = ground arith
next_state-answer code test_done h = refl

next_state-other :
    (code : ℕ) (s : TestState)
    → (code == 2 || code == 3) ≡ false
    → (code == 4) ≡ false
    → next_state code s ≡ s
next_state-other code test_none h k = ground arith
next_state-other code test_start h k = ground arith
next_state-other code test_exchange_parameters h k = ground arith
next_state-other code test_exchange_reports h k = ground arith
next_state-other code test_done h k = refl

done_acknowledged : (s : TestState) → is_done s ≡ true → s ≡ acknowledged s
unfolding acknowledged
done_acknowledged test_done h = refl
done_acknowledged test_none h = cc
done_acknowledged test_start h = cc
done_acknowledged test_exchange_parameters h = cc
done_acknowledged test_exchange_reports h = cc

-- A message that arrives on a connection.
pub record Incoming (P : Platform) : Type 1 where
  pub moment : Moment P
  pub conn : ℕ
  pub message : Octets

-- The action code in the header of a message.
abbrev code_in : Option ControlHeader → ℕ
code_in none = 0
code_in (some h) = h.action_code

abbrev pub code_of : Octets → ℕ
code_of message = code_in (decode message)

abbrev pub next_states : {P : Platform} → List (Incoming P) → TestState → TestState
next_states [] s = s
next_states (a ∷ rest) s = next_states rest (next_state (code_of a.message) s)

module _ {P : Platform} where
  pub send_ack-state :
      (t : IperfTest P) {u : IperfTest P}
      → send_ack t ≡ ok u
      → (u.state ≡ acknowledged t.state) × (u.streams ≡ t.streams)
  unfolding send_ack send_message
  send_ack-state t e = ground arith

  pub try_print_summary-state :
      (t : IperfTest P) {u : IperfTest P} → try_print_summary t ≡ ok u → u.state ≡ t.state
  unfolding try_print_summary
  try_print_summary-state t e = ground arith

  ack_in-state :
      (s : TestState) (m : Moment P) (t : IperfTest P) {u : IperfTest P}
      → t.state ≡ s
      → ack_in s m t ≡ ok u
      → u.state ≡ acked s
  unfolding ack_in acked
  ack_in-state test_exchange_parameters m t q e = ground arith
  ack_in-state test_exchange_reports m t q e = ground arith
  ack_in-state test_none m t q e = ground arith
  ack_in-state test_start m t q e = ground arith
  ack_in-state test_done m t q e = ground arith

  handle_ack_message-state :
      (m : Moment P) (t : IperfTest P) {u : IperfTest P}
      → handle_ack_message m t ≡ ok u
      → u.state ≡ acked t.state
  unfolding handle_ack_message
  handle_ack_message-state m t e = ack_in-state t.state m t refl e

  handle_ready_message-state :
      (m : Moment P) (t : IperfTest P) {u : IperfTest P}
      → handle_ready_message m t ≡ ok u
      → u.state ≡ t.state
  unfolding handle_ready_message ready_in
  handle_ready_message-state m t e = ground arith

  -- An acknowledgement, and a call behind it that keeps the state.
  finish-state :
      (k : IperfTest P → Result (IperfTest P))
      → ((v w : IperfTest P) → k v ≡ ok w → w.state ≡ v.state)
      → (t u : IperfTest P) → (send_ack t >>= k) ≡ ok u
      → u.state ≡ acknowledged t.state
  finish-state k keeps t u e =
      let (v, q, r) = >>=-ok (send_ack t) k e in keeps v u r ∙ (send_ack-state t q).0

  print_if-state :
      (reliable : Bool) (v w : IperfTest P)
      → (if reliable then ok v else try_print_summary v) ≡ ok w
      → w.state ≡ v.state
  print_if-state true v w e = ground arith
  print_if-state false v w e = try_print_summary-state v e

  handle_summary_message-state :
      (m : Moment P) (h : ControlHeader) (body : Octets) (t : IperfTest P) {u : IperfTest P}
      → handle_summary_message m h body t ≡ ok u
      → u.state ≡ acknowledged t.state
  unfolding handle_summary_message
  handle_summary_message-state m h body t {u} e = elim (Bool-cases (is_done t.state)) [
    | inl d ↦ ground (arith, done_acknowledged t.state d)
    | inr d ↦
        elim (Result-cases (
          read_reports (is_reliable_protocol t.config.protocol) m.time h.num_of_streams body
            t.streams)) [
              | inr (f, q) ↦ absurd (ground arith)
              | inl (streams, q) ↦
                  finish-state _ (print_if-state (is_reliable_protocol t.config.protocol))
                    (record t { streams = streams }) u (ground arith)
            ]
  ]

  print_recv_header-state :
      (v w : IperfTest P) → with_printer print_recv_header v ≡ ok w → w.state ≡ v.state
  print_recv_header-state v w e = ground arith

  with_parameters-state :
      (received : TestConfig (Float P)) (t : IperfTest P)
      → (with_parameters received t).state ≡ t.state
  unfolding with_parameters
  with_parameters-state received t = refl

  handle_test_parameters-state :
      (body : Octets) (t : IperfTest P) {u : IperfTest P}
      → handle_test_parameters body t ≡ ok u
      → u.state ≡ acknowledged t.state
  unfolding handle_test_parameters
  handle_test_parameters-state body t {u} e = elim (Bool-cases (is_done t.state)) [
    | inl d ↦ ground (arith, done_acknowledged t.state d)
    | inr d ↦
        elim (Result-cases
          (or_fault (deserialize P.floating body (default_config P.floating)) out_of_bounds)) [
            | inr (f, q) ↦ absurd (ground arith)
            | inl (received, q) ↦
                finish-state (with_printer print_recv_header) print_recv_header-state
                  (with_parameters received t) u (ground arith)
                ∙ ap acknowledged (with_parameters-state received t)
          ]
  ]

  handle_action-state :
      (m : Moment P) (h : ControlHeader) (body : Octets) (t : IperfTest P) {u : IperfTest P}
      → handle_action m h body t ≡ ok u
      → u.state ≡ next_state h.action_code t.state
  unfolding handle_action
  handle_action-state m h body t {u} e =
      let code = h.action_code in
      elim (Bool-cases (code == 4)) [
        | inl a ↦
            handle_ack_message-state m t {u = u} (ground arith)
            ∙ sym (next_state-ack code t.state a)
        | inr a ↦ elim (Bool-cases (code == 3)) [
          | inl b ↦
              handle_summary_message-state m h body t {u = u} (ground arith)
              ∙ sym (next_state-answer code t.state (ground arith))
          | inr b ↦ elim (Bool-cases (code == 2)) [
            | inl c ↦
                handle_test_parameters-state body t {u = u} (ground arith)
                ∙ sym (next_state-answer code t.state (ground arith))
            | inr c ↦
                let same = next_state-other code t.state (ground arith) a in
                elim (Bool-cases (code == 5)) [
                  | inl d ↦ handle_ready_message-state m t {u = u} (ground arith) ∙ sym same
                  | inr d ↦ ground (arith, same)
                ]
          ]
        ]
      ]

  heard_on-state : (conn : ℕ) (t : IperfTest P) → (heard_on conn t).state ≡ t.state
  unfolding heard_on
  heard_on-state conn t = refl

  handle_control_message-state :
      (m : Moment P) (conn : ℕ) (message : Octets) (t : IperfTest P) {u : IperfTest P}
      → handle_control_message m conn message t ≡ ok u
      → u.state ≡ next_state (code_of message) t.state
  unfolding handle_control_message
  handle_control_message-state m conn message t {u} e = elim (Option-cases (decode message)) [
    | inl q ↦ absurd (ground arith)
    | inr (h, q) ↦
        handle_action-state m h (drop header_size message) (heard_on conn t) {u = u} (ground arith)
        ∙ ap (next_state h.action_code) (heard_on-state conn t)
        ∙ ap (λ (c : ℕ). next_state c t.state) (sym (ap code_in q))
  ]

  -- The messages that a test receives one after the other.
  unfoldable pub messages : List (Incoming P) → IperfTest P → Result (IperfTest P)
  messages [] t = ok t
  messages (a ∷ rest) t = do u ← handle_control_message a.moment a.conn a.message t; messages rest u

  -- Whatever messages a test handles, one after the other and all of them to their end, its state
  -- is determined by the action codes of their headers alone, and each of them moves it as
  -- `next_state` says: an acknowledgement from TEST_EXCHANGE_PARAMETERS to TEST_START and from
  -- TEST_EXCHANGE_REPORTS to TEST_DONE; the parameters as well as a summary from TEST_NONE to
  -- TEST_START and from TEST_START to TEST_DONE; and every other message leaves it as it is.
  pub messages-next_states :
      (list : List (Incoming P)) (t : IperfTest P) {u : IperfTest P}
      → messages list t ≡ ok u
      → u.state ≡ next_states list t.state
  unfolding messages
  messages-next_states [] t {u} e = ground arith
  messages-next_states (a ∷ rest) t {u} e =
      let (v, q, r) =
        >>=-ok (handle_control_message a.moment a.conn a.message t) (messages rest) e in
      messages-next_states rest v r
      ∙ ap (next_states rest) (handle_control_message-state a.moment a.conn a.message t q)

  at_rest :
      (m : Moment P) (h : ControlHeader) (body : Octets) (t : IperfTest P) {u : IperfTest P}
      → t.state ≡ test_done
      → handle_action m h body t ≡ ok u
      → (u.streams ≡ t.streams) × (u.calls ≡ t.calls)
  unfolding handle_action handle_ack_message ack_in handle_summary_message handle_test_parameters
      handle_ready_message ready_in
  at_rest m h body t d e = ground arith

  message_at_rest :
      (m : Moment P) (conn : ℕ) (message : Octets) (t : IperfTest P) {u : IperfTest P}
      → t.state ≡ test_done
      → handle_control_message m conn message t ≡ ok u
      → (u.streams ≡ t.streams) × (u.calls ≡ t.calls)
  unfolding handle_control_message heard_on
  message_at_rest m conn message t {u} d e =
      elim (Result-cases (or_fault (decode message) out_of_bounds)) [
        | inr (f, q) ↦ absurd (ground arith)
        | inl (h, q) ↦
            at_rest m h (drop header_size message) (heard_on conn t) {u = u} d (ground arith)
      ]

  -- A test that is done stays done whatever messages it handles; it sends and prints nothing for
  -- them, and its streams stay as they are.
  pub messages-done :
      (list : List (Incoming P)) (t : IperfTest P) {u : IperfTest P}
      → t.state ≡ test_done
      → messages list t ≡ ok u
      → (u.state ≡ test_done) × ((u.streams ≡ t.streams) × (u.calls ≡ t.calls))
  unfolding messages
  messages-done [] t d e = ground arith
  messages-done (a ∷ rest) t {u} d e =
      let (v, q, r) =
        >>=-ok (handle_control_message a.moment a.conn a.message t) (messages rest) e in
      let at = message_at_rest a.moment a.conn a.message t d q in
      let d' =
        handle_control_message-state a.moment a.conn a.message t q
        ∙ ap (next_state (code_of a.message)) d in
      let next = messages-done rest v d' r in (next.0, (next.1.0 ∙ at.0, next.1.1 ∙ at.1))
