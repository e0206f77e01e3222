-- ===== src/Test/Number.antt =====
-- The number of a test: the messages of its control channel and Stop leave it as it is.
use bats_protocol_api.Test.Handlers.{try_print_summary, handle_control_message}
use bats_protocol_api.Stream.{Platform}
use bats_protocol_api.Prelude.{
  ℕ, Bool, ◌≡◌, Bool-cases, if◌then◌else◌, true, ◌==◌, inl, subst, inr, not, refl, drop, some, sym,
  ==_iff,
}
use bats_protocol_api.Test.Messages.{send_message, send_ack, message_size}
use bats_protocol_api.Test.{
  TestAction, TestState, IperfTest, Moment, with_printer, is_receiver, print_sent_header, is_done,
  test_start, print_recv_header, test_exchange_parameters, test_none, test_exchange_reports,
  test_done, note,
}
use bats_protocol_api.Test.Handlers.{
  handle_summary_message, handle_test_parameters, ready_in, ack_in, handle_action, heard_on,
  handle_ack_message, with_parameters, handle_ready_message, open_streams, read_reports,
}
use bats_protocol_api.Test.Control.{stop_test}
use bats_protocol_api.Prelude.Octets.{Octets}
use bats_protocol_api.Prelude.Results.{
  Ensures, Ensures-if, Ensures-after, Ensures-bind, require, ok, or_fault, assertion, out_of_bounds,
  null_pointer,
}
use bats_protocol_api.Wire.{ControlHeader, decode, header_size}
use bats_protocol_api.Common.{is_reliable_protocol}
use bats_protocol_api.Common.Config.{default_config, deserialize}
use bats_protocol_api.Prelude.Int.{pos_part}

module _ {P : Platform} where
  abbrev pub HasNumber : ℕ → IperfTest P → Type 0
  HasNumber i t = t.test_id ≡ i

  send_message-HasNumber :
      (size : ℕ) (message : Octets) (t : IperfTest P)
      → Ensures (HasNumber t.test_id) (send_message size message t)
  unfolding send_message
  send_message-HasNumber size message t =
      Ensures-after _ (require (not (t.test_id == 0)) assertion) _
        λ done. Ensures-after _ (or_fault t.ctrl_chn null_pointer) _ λ conn. refl

  send_ack-HasNumber : (t : IperfTest P) → Ensures (HasNumber t.test_id) (send_ack t)
  unfolding send_ack
  send_ack-HasNumber t =
      Ensures-bind (HasNumber t.test_id) _ (send_message message_size _ t) _
        (send_message-HasNumber message_size _ t) λ u e. e

  with_printer-HasNumber :
      (a : TestAction) (t : IperfTest P) → Ensures (HasNumber t.test_id) (with_printer a t)
  with_printer-HasNumber a t = Ensures-after _ (require t.has_printer assertion) _ λ done. refl

  try_print_summary-HasNumber :
      (t : IperfTest P) → Ensures (HasNumber t.test_id) (try_print_summary t)
  unfolding try_print_summary
  try_print_summary-HasNumber t =
      Ensures-if _ (is_receiver t.config.role) _ _
        (Ensures-bind (HasNumber t.test_id) _ (with_printer print_recv_header t) _
          (with_printer-HasNumber print_recv_header t) λ u e. e)
        refl

  ready_in-HasNumber :
      (s : TestState) (m : Moment P) (t : IperfTest P)
      → Ensures (HasNumber t.test_id) (ready_in s m t)
  unfolding ready_in
  ready_in-HasNumber test_start m t =
      Ensures-bind (HasNumber t.test_id) _ (with_printer print_sent_header t) _
        (with_printer-HasNumber print_sent_header t) λ u e. e
  ready_in-HasNumber test_none m t = refl
  ready_in-HasNumber test_exchange_parameters m t = refl
  ready_in-HasNumber test_exchange_reports m t = refl
  ready_in-HasNumber test_done m t = refl

  ack_in-HasNumber :
      (s : TestState) (m : Moment P) (t : IperfTest P)
      → Ensures (HasNumber t.test_id) (ack_in s m t)
  unfolding ack_in
  ack_in-HasNumber test_exchange_parameters m t =
      Ensures-after _ (open_streams m t.config 0 (pos_part t.config.num_streams)) _ λ opened. refl
  ack_in-HasNumber test_none m t = refl
  ack_in-HasNumber test_start m t = refl
  ack_in-HasNumber test_exchange_reports m t = refl
  ack_in-HasNumber test_done m t = refl

  then_summary :
      (i : ℕ) (reliable : Bool) (u : IperfTest P)
      → HasNumber i u
      → Ensures (HasNumber i) (if reliable then ok u else try_print_summary u)
  then_summary i reliable u e = Ensures-if _ reliable _ _ e (
      subst (λ (n : ℕ). Ensures (HasNumber n) (try_print_summary u)) e
        (try_print_summary-HasNumber u))

  handle_summary_message-HasNumber :
      (m : Moment P) (header : ControlHeader) (body : Octets) (t : IperfTest P)
      → Ensures (HasNumber t.test_id) (handle_summary_message m header body t)
  unfolding handle_summary_message
  handle_summary_message-HasNumber m header body t =
      let reliable = is_reliable_protocol t.config.protocol in
      Ensures-if _ (is_done t.state) _ _ refl (
        Ensures-after _ (require (header.test_id == t.test_id) assertion) _ λ done.
          Ensures-after _ (read_reports reliable m.time header.num_of_streams body t.streams) _
            λ streams.
              Ensures-bind (HasNumber t.test_id) _ (send_ack (record t { streams = streams })) _
                (send_ack-HasNumber (record t { streams = streams }))
                (then_summary t.test_id reliable))

  handle_test_parameters-HasNumber :
      (body : Octets) (t : IperfTest P)
      → Ensures (HasNumber t.test_id) (handle_test_parameters body t)
  unfolding handle_test_parameters with_parameters
  handle_test_parameters-HasNumber body t =
      let config = default_config P.floating in
      Ensures-if _ (is_done t.state) _ _ refl (
        Ensures-after _ (or_fault (deserialize P.floating body config) out_of_bounds) _ λ received.
          Ensures-bind (HasNumber t.test_id) _ (send_ack (with_parameters received t)) _
            (send_ack-HasNumber (with_parameters received t))
            λ u e.
              subst (λ (n : ℕ). Ensures (HasNumber n) (with_printer print_recv_header u)) e
                (with_printer-HasNumber print_recv_header u))

  handle_action-HasNumber :
      (m : Moment P) (header : ControlHeader) (body : Octets) (t : IperfTest P)
      → Ensures (HasNumber t.test_id) (handle_action m header body t)
  unfolding handle_action handle_ack_message handle_ready_message
  handle_action-HasNumber m header body t =
      Ensures-if _ (header.action_code == 4) _ _ (ack_in-HasNumber t.state m t) (
        Ensures-if _ (header.action_code == 3) _ _
          (handle_summary_message-HasNumber m header body t)
          (Ensures-if _ (header.action_code == 2) _ _ (handle_test_parameters-HasNumber body t) (
            Ensures-if _ (header.action_code == 5) _ _
              (ready_in-HasNumber t.state m (record t { is_ready_received = true })) refl)))

  -- A message that is handled has the number of the test, which keeps it.
  pub handle_control_message-HasNumber :
      (m : Moment P) (conn : ℕ) (message : Octets) (t : IperfTest P)
      → Ensures (HasNumber t.test_id) (handle_control_message m conn message t)
  unfolding handle_control_message heard_on
  handle_control_message-HasNumber m conn message t =
      Ensures-after _ (or_fault (decode message) out_of_bounds) _ λ header.
        Ensures-after _ (require (header.test_id == t.test_id) assertion) _
          λ done. handle_action-HasNumber m header (drop header_size message) (heard_on conn t)

  abbrev pub IsStopped : ℕ → IperfTest P × Bool → Type 0
  IsStopped i (u, first) = (u.test_id ≡ i) × (u.is_stopped ≡ true)

  abbrev IsStoppedAs : ℕ → IperfTest P → Type 0
  IsStoppedAs i u = (u.test_id ≡ i) × (u.is_stopped ≡ true)

  printing_stopped :
      (t : IperfTest P)
      → t.is_stopped ≡ true
      → Ensures (IsStoppedAs t.test_id) (with_printer print_recv_header t)
  printing_stopped t h =
      Ensures-after (IsStoppedAs t.test_id) (require t.has_printer assertion)
        (λ done. ok (note print_recv_header t)) λ done. (refl, h)

  stopped_summary :
      (t : IperfTest P)
      → t.is_stopped ≡ true
      → Ensures (IsStoppedAs t.test_id) (try_print_summary t)
  unfolding try_print_summary
  stopped_summary t h =
      let P = IsStoppedAs t.test_id in
      Ensures-if P (is_receiver t.config.role) _ _
        (Ensures-bind P P (with_printer print_recv_header t) _ (printing_stopped t h) λ u e. e)
        (refl, h)

  pub stop_test-IsStopped :
      (m : Moment P) (t : IperfTest P) → Ensures (IsStopped t.test_id) (stop_test m t)
  unfolding stop_test
  stop_test-IsStopped m t = elim (Bool-cases t.is_stopped) [
    | inl h ↦ rw h (refl, refl)
    | inr h ↦ rw h (
        Ensures-bind (IsStoppedAs t.test_id) _ (try_print_summary _) _ (stopped_summary _ refl)
          λ u e. e)
  ]

  -- A message that is handled has the number of the test.
  pub handle_control_message-test_id :
      (m : Moment P) (conn : ℕ) (message : Octets) (t : IperfTest P) {header : ControlHeader}
      → decode message ≡ some header
      → Ensures (HasNumber header.test_id) (handle_control_message m conn message t)
  unfolding handle_control_message
  handle_control_message-test_id m conn message t {header} q =
      elim (Bool-cases (header.test_id == t.test_id)) [
        | inl e ↦
            subst (λ (n : ℕ). Ensures (HasNumber n) (handle_control_message m conn message t))
              (sym ((==_iff header.test_id t.test_id).0 e))
              (handle_control_message-HasNumber m conn message t)
        | inr e ↦ rw (q, e) tt
      ]
