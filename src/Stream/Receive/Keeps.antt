-- ===== src/Stream/Receive/Keeps.antt =====
-- What the answers to a block's marks leave alone.
use bats_protocol_api.Prelude.{replicate, ◌++◌, zero, suc, refl, subst}
use bats_protocol_api.Prelude.Results.{
  Result, >>=-ok, or_fault, null_pointer, waiting, ok-injective, ◌>>=◌,
}
use bats_protocol_api.Retry.{retry, offered_again}
use bats_protocol_api.Stream.{emit_again}
use bats_protocol_api.Prelude.{ℕ, ◌+◌, ◌≡◌, Bool, true, List, [], ◌∷◌, arith}
use bats_protocol_api.Prelude.Octets.{Octets}
use bats_protocol_api.Prelude.Results.{ok}
use bats_protocol_api.Stream.{
  Platform, IperfStream, Action, Clock, Sending, start_connect, send_data,
}
use bats_protocol_api.Stream.Header.{sent_block}
use bats_protocol_api.Stream.Report.{snapshot_rx_tx_report}
use bats_protocol_api.Stream.Receive.{
  has_new_grp_id, on_received_interval_data, on_received_fin, fin_answered, fin_ack_header,
}

abbrev is_connect : {P : Platform} → Action P → ℕ
is_connect (start_connect host port) = 1
is_connect _ = 0

-- How often a connection was asked for.
abbrev pub connects : {P : Platform} → List (Action P) → ℕ
connects [] = 0
connects (a ∷ calls) = is_connect a + connects calls

-- The connection's side of a stream, and the octets received.
pub record Keeps {P : Platform} (s t : IperfStream P) : Type 0 where
  pub same_retries : t.connect_retry_cnt ≡ s.connect_retry_cnt
  pub same_connects : connects t.calls ≡ connects s.calls
  pub same_writable : t.is_writable ≡ s.is_writable
  pub same_bytes : t.receiver_report.summary.bytes ≡ s.receiver_report.summary.bytes

module _ {P : Platform} where
  pub Keeps-trans : {s t u : IperfStream P} → Keeps s t → Keeps t u → Keeps s u
  Keeps-trans p q = ground arith

  pub has_new_grp_id-Keeps :
      (flag seq : ℕ) (s : IperfStream P) → Keeps s (has_new_grp_id flag seq s).0
  unfolding has_new_grp_id
  has_new_grp_id-Keeps flag seq s = ground arith

  pub on_received_interval_data-Keeps :
      (clock : Clock) (bytes : Octets) (s : IperfStream P) {t : IperfStream P}
      → on_received_interval_data clock bytes s ≡ ok t
      → Keeps s t
  unfolding on_received_interval_data snapshot_rx_tx_report
  on_received_interval_data-Keeps clock bytes s h = ground arith

  fin_answered-Keeps :
      (clock : Clock) (send_ok : Bool) (s : IperfStream P) → Keeps s (fin_answered clock send_ok s)
  unfolding fin_answered snapshot_rx_tx_report
  fin_answered-Keeps clock send_ok s = ground arith

  connects-replicate :
      (n : ℕ) (block : Octets) (fin : Bool) (calls : List (Action P))
      → connects (replicate n (send_data block fin) ++ calls) ≡ connects calls
  connects-replicate zero block fin calls = refl
  connects-replicate (suc n) block fin calls = omega (arith, connects-replicate n block fin calls)

  fin_ack_header-Keeps :
      (again : ℕ) (s : IperfStream P)
      → let t = fin_ack_header s in Keeps s (emit_again again (send_data (sent_block t) true) t)
  unfolding fin_ack_header
  fin_ack_header-Keeps again s = record {
    same_retries = refl;
    same_connects = connects-replicate (suc again) (sent_block (fin_ack_header s)) true s.calls;
    same_writable = refl;
    same_bytes = refl;
  }

  pub on_received_fin-Keeps :
      (clock : Clock) (sending : Sending) (s : IperfStream P) {t : IperfStream P}
      → on_received_fin clock sending s ≡ ok t
      → Keeps s t
  unfolding on_received_fin
  on_received_fin-Keeps clock sending s {t} h =
      let again = offered_again sending.at_once sending.polls in
      let u =
        emit_again again (send_data (sent_block (fin_ack_header s)) true) (fin_ack_header s) in
      let answer : Bool → Result (IperfStream P) = λ send_ok. ok (fin_answered clock send_ok u) in
      let (conn, q, r) =
        >>=-ok (or_fault (fin_ack_header s).data_conn null_pointer)
          (λ conn. or_fault (retry sending.at_once sending.polls) waiting >>= answer) h in
      let (send_ok, w, e) =
        >>=-ok (or_fault (retry sending.at_once sending.polls) waiting) answer r in
      subst (Keeps s) (ok-injective (fin_answered clock send_ok u) t e)
        (Keeps-trans (fin_ack_header-Keeps again s) (fin_answered-Keeps clock send_ok u))
