-- ===== src/Stream/Blocks.antt =====
-- Every block that the sending thread offers to the connection passes the receiver's check.
use bats_protocol_api.Retry.{offered_again}
use bats_protocol_api.Stream.{emit_again}
use bats_protocol_api.Prelude.{suc}
use bats_protocol_api.Prelude.{
  ℕ, ◌≡◌, arith, Bool-cases, length, ltb, true, false, drop, ◌++◌, ◌&&◌, refl, replicate, not, ◌==◌,
  ◌%◌, ◌≤◌, inl, ap, ◌+◌, inr, ◌∙◌, drop-append,
}
use bats_protocol_api.Stream.{Platform, IperfStream, Clock, send_data, Float, TestHeader}
use bats_protocol_api.Stream.Send.{prepare_block, send_block, Round}
use bats_protocol_api.Prelude.Octets.{Octets, le_octets}
use bats_protocol_api.Stream.Report.{serialize_interval, count_block}
use bats_protocol_api.Stream.Header.{
  sent_block, validate_received_data, interval_data_size, iperf_char, test_header_size,
}
use bats_protocol_api.Prelude.Results.{ok}
use bats_protocol_api.Common.{magic_code, TestInterval}
use bats_protocol_api.Prelude.Floating.{Floating}
use bats_protocol_api.Stream.Header.Laws.{validate_received_data-block}

-- The buffer of a stream: the magic code in front, room for an interval, and the filling.
pub record IsFilled {P : Platform} (s : IperfStream P) : Type 0 where
  pub area : Octets
  pub size : ℕ
  pub has_magic : s.header.magic ≡ magic_code
  pub area_length : length area ≡ interval_data_size
  pub body_filled : s.body ≡ area ++ replicate size iperf_char
  pub ideal_least : test_header_size ≤ s.ideal_length
  pub ideal_most : s.ideal_length ≤ test_header_size + interval_data_size + size

length-serialize_interval :
    (F : Floating) (i : TestInterval F.Float) → length (serialize_interval F i) ≡ interval_data_size
unfolding serialize_interval le_octets
length-serialize_interval F i = refl

module _ {P : Platform} where
  IsFilled-same :
      {s t : IperfStream P}
      → t.header.magic ≡ s.header.magic
      → t.body ≡ s.body
      → t.ideal_length ≡ s.ideal_length
      → IsFilled s
      → IsFilled t
  IsFilled-same m b l v = record {
    area = v.area;
    size = v.size;
    has_magic = m ∙ v.has_magic;
    area_length = v.area_length;
    body_filled = b ∙ v.body_filled;
    ideal_least = rw (l) v.ideal_least;
    ideal_most = rw (l) v.ideal_most;
  }

  with_interval-IsFilled :
      (i : TestInterval (Float P)) (h : TestHeader) (s : IperfStream P)
      → h.magic ≡ s.header.magic
      → IsFilled s
      → IsFilled (record s {
        header = h;
        body = serialize_interval P.floating i ++ drop interval_data_size s.body;
      })
  with_interval-IsFilled i h s m v = record {
    area = serialize_interval P.floating i;
    size = v.size;
    has_magic = m ∙ v.has_magic;
    area_length = length-serialize_interval P.floating i;
    body_filled =
        rw
          (
            v.body_filled,
            drop-append v.area (replicate v.size iperf_char) interval_data_size v.area_length,
          )
          refl;
    ideal_least = v.ideal_least;
    ideal_most = v.ideal_most;
  }

  prepare_block-IsFilled :
      (clock : Clock) (group : ℕ) (s : IperfStream P)
      → IsFilled s
      → IsFilled (prepare_block clock group s).0
  unfolding prepare_block
  prepare_block-IsFilled clock group s v =
      elim (Bool-cases
        (ltb 0 s.sender_report.snapshot_cnt && not (group == s.sender_report.snapshot_cnt % 2))) [
          | inl q ↦ rw (q) (with_interval-IsFilled _ _ s refl v)
          | inr q ↦ rw (q) (IsFilled-same refl refl refl v)
        ]

  prepare_block-calls :
      (clock : Clock) (group : ℕ) (s : IperfStream P)
      → (prepare_block clock group s).0.calls ≡ s.calls
  unfolding prepare_block
  prepare_block-calls clock group s = ground arith

  sent_block-valid :
      (s : IperfStream P) → IsFilled s → validate_received_data (sent_block s) ≡ ok true
  unfolding sent_block
  sent_block-valid s v = rw v.body_filled (
      validate_received_data-block s.header v.area v.size s.ideal_length v.has_magic v.area_length
        v.ideal_least v.ideal_most)

  after_send : ℕ → IperfStream P → IperfStream P
  after_send again t = record (emit_again again (send_data (sent_block t) false) t) {
    sender_report = count_block P.floating t.sender_report t.ideal_length;
  }

  send_block-after_send :
      (round : Round) (group : ℕ) (s : IperfStream P) {r : IperfStream P × ℕ}
      → send_block round group s ≡ ok r
      → r.0
        ≡ after_send
            (offered_again round.sending.at_once round.sending.polls)
            (prepare_block round.clock group s).0
  unfolding send_block after_send
  send_block-after_send round group s e = ground arith

  -- The stream's buffer has the magic code in front, the area of an interval and the filling behind
  -- it, and its length is from the 40 octets of a header to those of the buffer. Then a turn of the
  -- loop that sends offers one new block to the connection, once and again for each retry, and the
  -- check ValidateReceivedData accepts that block; and the buffer has this form again after the turn.
  pub send_block-valid :
      (round : Round) (group : ℕ) (s : IperfStream P) {r : IperfStream P × ℕ}
      → IsFilled s
      → send_block round group s ≡ ok r
      → (block : Octets) × (r.0.calls
          ≡ replicate
              (suc (offered_again round.sending.at_once round.sending.polls))
              (send_data block false)
            ++ s.calls)
        × (validate_received_data block ≡ ok true)
        × IsFilled r.0
  unfolding after_send
  send_block-valid round group s v e =
      let t = (prepare_block round.clock group s).0 in
      let w = prepare_block-IsFilled round.clock group s v in
      let again = offered_again round.sending.at_once round.sending.polls in
      rw (send_block-after_send round group s e) (
        sent_block t,
        ap (λ l. replicate (suc again) (send_data (sent_block t) false) ++ l)
            (prepare_block-calls round.clock group s),
        sent_block-valid t w,
        IsFilled-same refl refl refl w,
      )
