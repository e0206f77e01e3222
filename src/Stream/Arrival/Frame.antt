-- ===== src/Stream/Arrival/Frame.antt =====
-- What an arriving block changes of the connection's side of a stream: nothing; and of the count.
use bats_protocol_api.Prelude.{ℕ, ◌≡◌, Bool, inl, inr, arith, drop, some, ◌+◌, ◌%◌, ◌∷◌, length}
use bats_protocol_api.Prelude.Octets.{Octets}
use bats_protocol_api.Prelude.Results.{ok, Result-cases}
use bats_protocol_api.Stream.{Platform, IperfStream, TestHeader, Clock, Sending}
use bats_protocol_api.Stream.Header.{test_header_size, decode_header}
use bats_protocol_api.Stream.Receive.{has_new_grp_id}
use bats_protocol_api.Stream.Receive.Keeps.{
  Keeps, has_new_grp_id-Keeps, on_received_interval_data-Keeps, on_received_fin-Keeps, connects,
}
use bats_protocol_api.Stream.Report.{count_block, u64_mod}
use bats_protocol_api.Stream.Arrival.{
  handle_block, identify, on_fin_ack, on_fin, on_interval, update_jitter, update_received,
  count_arrival, check_data,
}

module _ {P : Platform} where
  identify-Keeps :
      (h : TestHeader) (s : IperfStream P) {t : IperfStream P} → identify h s ≡ ok t → Keeps s t
  unfolding identify
  identify-Keeps h s e = ground arith

  on_fin_ack-Keeps : (h : TestHeader) (s : IperfStream P) → Keeps s (on_fin_ack h s)
  unfolding on_fin_ack
  on_fin_ack-Keeps h s = ground arith

  update_jitter-Keeps :
      (wall sent_at : ℕ) (s : IperfStream P) → Keeps s (update_jitter wall sent_at s)
  unfolding update_jitter
  update_jitter-Keeps wall sent_at s = ground arith

  on_fin-Keeps :
      (clock : Clock) (sending : Sending) (h : TestHeader) (s : IperfStream P) {t : IperfStream P}
      → on_fin clock sending h s ≡ ok t
      → Keeps s t
  unfolding on_fin
  on_fin-Keeps clock sending h s {t} e =
      ground (arith, on_received_fin-Keeps clock sending s {t = t})

  on_interval-Keeps :
      (clock : Clock) (h : TestHeader) (block : Octets) (s : IperfStream P) {t : IperfStream P}
      → on_interval clock h block s ≡ ok t
      → Keeps s t
  unfolding on_interval
  on_interval-Keeps clock h block s {t} e =
      let u = (has_new_grp_id h.grp_id h.seq s).0 in
      ground (
        arith,
        has_new_grp_id-Keeps h.grp_id h.seq s,
        on_received_interval_data-Keeps clock (drop test_header_size block) u {t = t},
      )

  handle_block-Keeps :
      (clock : Clock) (sending : Sending) (block : Octets) (h : TestHeader) (s : IperfStream P)
      {t : IperfStream P × Bool}
      → handle_block clock sending block h s ≡ ok t
      → Keeps s t.0
  unfolding handle_block
  handle_block-Keeps clock sending block h s e = elim (Result-cases (identify h s)) [
    | inr (f, q) ↦ ground arith
    | inl (t, q) ↦ elim (Result-cases (on_fin clock sending h (on_fin_ack h t))) [
      | inr (f, q2) ↦ ground arith
      | inl (u, q2) ↦ elim (Result-cases (on_interval clock h block u)) [
        | inr (f, q3) ↦ ground arith
        | inl (v, q3) ↦ ground (
          arith,
          identify-Keeps h s q,
          on_fin_ack-Keeps h t,
          on_fin-Keeps clock sending h (on_fin_ack h t) q2,
          on_interval-Keeps clock h block u q3,
          update_jitter-Keeps clock.wall h.time v,
        )
      ]
    ]
  ]

-- What a block of `n` octets leaves behind.
pub record Arrived {P : Platform} (n : ℕ) (s t : IperfStream P) : Type 0 where
  pub same_retries : t.connect_retry_cnt ≡ s.connect_retry_cnt
  pub same_connects : connects t.calls ≡ connects s.calls
  pub same_writable : t.is_writable ≡ s.is_writable
  pub more_bytes : t.receiver_report.summary.bytes ≡ (s.receiver_report.summary.bytes + n) % u64_mod

module _ {P : Platform} where
  count_arrival-Arrived : (now n : ℕ) (s : IperfStream P) → Arrived n s (count_arrival now n s)
  unfolding count_arrival count_block
  count_arrival-Arrived now n s = ground arith

  -- An arrival that is handled to its end adds its octets, to 64 bits, to the receiver's report; it
  -- asks for no connection, counts no retry, and leaves the writable flag as it is, whatever the block
  -- has in it.
  pub update_received-Arrived :
      (clock : Clock) (sending : Sending) (b : ℕ) (rest : Octets) (s : IperfStream P)
      {r : IperfStream P × Bool}
      → update_received clock sending (some (b ∷ rest)) s ≡ ok r
      → Arrived (length (b ∷ rest)) s r.0
  unfolding update_received
  update_received-Arrived clock sending b rest s {r} e =
      let block = b ∷ rest in
      let t = count_arrival clock.monotonic (length block) s in
      elim (Result-cases (decode_header block)) [
        | inr (f, q) ↦ ground arith
        | inl (h, q) ↦ elim (Result-cases (check_data block t)) [
          | inr (f, q2) ↦ ground arith
          | inl (u, q2) ↦ ground (
            arith,
            count_arrival-Arrived clock.monotonic (length block) s,
            handle_block-Keeps clock sending block h
                (record t { recorder = P.record_seq t.recorder h.seq }) {t = r},
          )
        ]
      ]
