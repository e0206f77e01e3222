-- ===== src/Test/Handshake.antt =====
-- The receiver's side of the start: the parameters, and the signal that it is ready.
use bats_protocol_api.Stream.{Platform, IperfStream}
use bats_protocol_api.Test.{IperfTest, Moment, is_done, note, send_control}
use bats_protocol_api.Prelude.{
  List, ℕ, Bool, ◌^◌, ◌≡◌, some, false, ◌==◌, length, if◌then◌else◌, ◌++◌, ◌∷◌, arith, [],
  length-append, refl, inr, inl, Bool-cases, Option-cases,
}
use bats_protocol_api.Test.Messages.{
  send_test_ready, send_message, message_size, control_header, send_ack,
}
use bats_protocol_api.Test.Control.{accept_stream}
use bats_protocol_api.Test.Handlers.{handle_test_parameters, with_parameters}
use bats_protocol_api.Prelude.Octets.{Octets, is_empty}
use bats_protocol_api.Wire.{in_buffer, encode}
use bats_protocol_api.Prelude.Int.{wrap, pos, ◌==ℤ◌}
use bats_protocol_api.Prelude.Results.{ok, Result-cases}
use bats_protocol_api.Common.{role_receiver}
use bats_protocol_api.Stream.Control.{new_accepted, start_recv}
use bats_protocol_api.Common.Config.{deserialize, default_config, TestConfig}
use bats_protocol_api.Prelude.Floating.{Floating}

pub deserialize-num_streams :
    (F : Floating) (body : Octets) (c r : TestConfig F.Float)
    → deserialize F body c ≡ some r
    → r.num_streams ≡ c.num_streams
unfolding deserialize
deserialize-num_streams F body c r e = ground arith

module _ {P : Platform} where
  -- The message that SendTestReady sends.
  pub ready_message : IperfTest P → Octets
  ready_message t = in_buffer message_size (encode (control_header t.test_id 5 0))

  one_now :
      (streams : List (IperfStream P)) (r : IperfStream P)
      → (wrap (2 ^ 64) (pos 1) == length (streams ++ (r ∷ []))) ≡ is_empty streams
  one_now [] r = refl
  one_now (s ∷ streams) r = ground (arith, length-append streams (r ∷ []))

  sends_ready :
      (t : IperfTest P) (conn : ℕ) {r : IperfTest P × Bool}
      → t.ctrl_chn ≡ some conn
      → send_test_ready t ≡ ok r
      → r.0 ≡ note (send_control (ready_message t)) t
  unfolding send_test_ready send_message ready_message
  sends_ready t conn c e = ground (arith, c)

  -- A receiver over a protocol other than UDP, whose configuration says one stream (as it does
  -- whenever it comes from the sender's parameters) and which has a control channel, gives the ready
  -- signal with the first connection that it accepts, and with no other.
  pub accept_stream-ready :
      (m : Moment P) (conn ideal channel : ℕ) (t : IperfTest P) {u : IperfTest P}
      → t.config.num_streams ≡ pos 1
      → (t.config.protocol ==ℤ pos 11) ≡ false
      → t.ctrl_chn ≡ some channel
      → accept_stream m conn ideal t ≡ ok u
      → u.calls ≡ (if is_empty t.streams then send_control (ready_message t) ∷ t.calls else t.calls)
  unfolding accept_stream ready_message
  accept_stream-ready m conn ideal channel t {u} n p c e =
      elim (Result-cases (
        new_accepted {P = P} m.recorder (record t.config { role = role_receiver }) m.next_id conn
          ideal)) [
            | inr (f, q) ↦ absurd (ground arith)
            | inl (s, q) ↦ elim (Result-cases (start_recv {P = P} s)) [
              | inr (f, q2) ↦ absurd (ground arith)
              | inl (r, q2) ↦
                  let w = record t { streams = t.streams ++ (r ∷ []) } in
                  let one = one_now t.streams r in
                  elim (Bool-cases (is_empty t.streams)) [
                    | inr b ↦ ground (arith, one, n, p)
                    | inl b ↦ elim (Result-cases (send_test_ready w)) [
                      | inr (f, q3) ↦ absurd (ground (arith, one, n, p))
                      | inl (v, q3) ↦
                          (let x = sends_ready w channel {r = v} c q3 in
                            ground (arith, one, n, p, x))
                    ]
                  ]
            ]
          ]

  send_ack-config : (t : IperfTest P) {u : IperfTest P} → send_ack t ≡ ok u → u.config ≡ t.config
  unfolding send_ack send_message
  send_ack-config t e = ground arith

  -- Behind the parameters of a sender a receiver expects one stream, whatever the sender opens.
  pub handle_test_parameters-num_streams :
      (body : Octets) (t : IperfTest P) {u : IperfTest P}
      → is_done t.state ≡ false
      → handle_test_parameters body t ≡ ok u
      → (u.config.num_streams ≡ pos 1) × (u.config.role ≡ role_receiver)
  unfolding handle_test_parameters with_parameters default_config
  handle_test_parameters-num_streams body t {u} d e =
      elim (Option-cases (deserialize P.floating body (default_config P.floating))) [
        | inl q ↦ absurd (ground arith)
        | inr (r, q) ↦
            let n = deserialize-num_streams P.floating body (default_config P.floating) r q in
            elim (Result-cases (send_ack (with_parameters r t))) [
              | inr (f, q2) ↦ absurd (ground arith)
              | inl (v, q2) ↦
                  (let x = send_ack-config (with_parameters r t) {u = v} q2 in ground (arith, n, x))
            ]
      ]
