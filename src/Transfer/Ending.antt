-- ===== src/Transfer/Ending.antt =====
-- When a receiving transfer counts as done.
use bats_protocol_api.Transfer.Session.{
  send_message, handle_file_transfer_request, send_response, is_denied,
}
use bats_protocol_api.Transfer.Callbacks.{is_stream_done}
use bats_protocol_api.Prelude.Floating.{Floating}
use bats_protocol_api.Transfer.Callbacks.{expected, is_settled}
use bats_protocol_api.Transfer.{Transfer, FileStream}
use bats_protocol_api.Prelude.Int.{ℤ, ◌==ℤ◌, pos, pos_part, neg_part, ◌-ℤ◌, int_laws}
use bats_protocol_api.Prelude.{
  List, ◌≡◌, true, some, arith, ◌↔◌, length, ◌⊎◌, ◌+◌, ◌∷◌, [], refl, ◌&&◌, inl, inr, ◌||◌, ◌∙◌,
  Option, ℕ, not, false, ◌==◌, Option-cases, ap,
}
use bats_protocol_api.Common.{role_receiver}
use bats_protocol_api.Test.{is_done, TestState}
use bats_protocol_api.Prelude.Octets.{is_empty, Octets}
use bats_protocol_api.Common.Config.{default_config, deserialize, TestConfig}
use bats_protocol_api.Prelude.Results.{
  Ensures, Ensures-after, require, ok, assertion, Ensures-at, or_fault, null_pointer, Ensures-mono,
}
use bats_protocol_api.Wire.{ControlHeader, join_words}
use bats_protocol_api.Test.Handshake.{deserialize-num_streams}

settled_receiver : (s : FileStream) → is_settled role_receiver s ≡ true
unfolding is_settled
settled_receiver s = ground arith

-- Every stream of a receiver is settled, so the count is the difference.
expected-receiver :
    (z : ℤ) (streams : List FileStream)
    → (w : ℤ) × (expected (is_settled role_receiver) z streams ≡ some w)
      × (pos_part w + neg_part z + length streams ≡ neg_part w + pos_part z)
unfolding expected
expected-receiver z [] = (z, refl, omega arith)
expected-receiver z (s ∷ streams) =
    let (w, e, h) = expected-receiver (z -ℤ pos 1) streams in
    (w, ground (arith, settled_receiver s, e), omega (int_laws, h))

no_streams : (streams : List FileStream) → (is_empty streams ≡ true) ↔ (length streams ≡ 0)
no_streams [] = ground arith
no_streams (s ∷ streams) = ground arith

module _ {F : Floating} where
  abbrev pub Receives : Transfer F → Type 0
  Receives t = (t.config.role ≡ role_receiver) × (t.config.num_streams ≡ pos 1)

  abbrev pub DoneWhen : Transfer F → Type 0
  DoneWhen t = (length t.streams ≡ 1) ⊎ ((length t.streams ≡ 0) × (is_done t.state ≡ true))

  counted :
      (t : Transfer F)
      → Receives t
      → (w : ℤ) × (expected (is_settled t.config.role) t.config.num_streams t.streams ≡ some w)
        × (pos_part w + length t.streams ≡ neg_part w + 1)
  counted t r =
      let (w, e, h) = expected-receiver (pos 1) t.streams in (w, rw (r.0, r.1) e, omega (arith, h))

  done_value :
      (t : Transfer F) (w : ℤ)
      → t.config.role ≡ role_receiver
      → expected (is_settled t.config.role) t.config.num_streams t.streams ≡ some w
      → (is_stream_done t).1 ≡ ((is_done t.state && is_empty t.streams) || (w ==ℤ pos 0))
  unfolding is_stream_done
  done_value t w r e = ground arith

  done_iff : (t : Transfer F) → Receives t → ((is_stream_done t).1 ≡ true) ↔ DoneWhen t
  done_iff t r =
      let (w, e, h) = counted t r in
      let v = done_value t w r.0 e in
      let n = no_streams t.streams in (λ d. ground (arith, v, n, h), λ d. v ∙ ground (arith, n, h))

  send_response-config :
      (code : ℕ) (t : Transfer F)
      → Ensures (λ (u : Transfer F). u.config ≡ t.config) (send_response code t)
  unfolding send_response send_message
  send_response-config code t =
      let Q = λ (u : Transfer F). u.config ≡ t.config in
      Ensures-after Q (require (not (t.test_id == 0)) assertion) _
        λ done. Ensures-after Q (or_fault t.ctrl_chn null_pointer) _ λ conn. refl

  request-Receives :
      (available : Option ℕ) (header : ControlHeader) (body : Octets) (t : Transfer F)
      → is_denied available (join_words header.param1 header.param2) ≡ false
      → Ensures Receives (handle_file_transfer_request available header body t)
  unfolding handle_file_transfer_request default_config
  request-Receives available header body t d =
      elim (Option-cases (deserialize F body (default_config F))) [
        | inl q ↦ rw q tt
        | inr (received, q) ↦
            let n = deserialize-num_streams F body (default_config F) received q in
            rw (q, d)
              (Ensures-mono _ Receives (send_response 0 _) (send_response-config 0 _) λ u e. (
                ap (λ (c : TestConfig F.Float). c.role) e,
                ap (λ (c : TestConfig F.Float). c.num_streams) e ∙ n,
              ))
      ]

  -- A receiving transfer counts as done by the number of its connections alone. Behind a request
  -- that was accepted, whatever has become of the session's state, its streams and the count of
  -- files since, IsStreamDone is true exactly with one stream, whether or not that stream has
  -- received anything, and without a stream once the state is TEST_DONE; never with two or more.
  pub is_stream_done-received :
      (available : Option ℕ) (header : ControlHeader) (body : Octets) (t : Transfer F)
      (streams : List FileStream) (state : TestState) (files : ℤ) {u : Transfer F}
      → is_denied available (join_words header.param1 header.param2) ≡ false
      → handle_file_transfer_request available header body t ≡ ok u
      → ((is_stream_done (record u {
        config = record u.config { num_files = files };
        streams = streams;
        state = state;
      })).1
          ≡ true)
        ↔ ((length streams ≡ 1) ⊎ ((length streams ≡ 0) × (is_done state ≡ true)))
  is_stream_done-received available header body t streams state files {u} d e =
      let r =
        Ensures-at Receives (handle_file_transfer_request available header body t)
          (request-Receives available header body t d) e in
      done_iff
        (record u {
          config = record u.config { num_files = files };
          streams = streams;
          state = state;
        })
        (r.0, r.1)
