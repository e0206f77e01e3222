-- ===== src/Stream/Report/Accounting.antt =====
-- The counters of a report: snapshots cut the traffic into intervals and lose none of it.
use bats_protocol_api.Prelude.{ℕ, ◌+◌, ◌-◌, ◌%◌, ◌^◌, ◌<◌, ◌≡◌, refl, List, [], ◌∷◌, arith}
use bats_protocol_api.Prelude.Int.{pos}
use bats_protocol_api.Prelude.Floating.{Floating}
use bats_protocol_api.Common.{TestReport}
use bats_protocol_api.Stream.Report.{
  snapshot_rx_tx_report, count_block, with_bitrate, gen_receive_summary, sub64, u64_mod,
}

-- What happens to a report in the course of a test.
pub data Entry : Type 0 where
  block : ℕ → Entry
  cut : ℕ → ℕ → Entry

module _ (F : Floating) where
  abbrev pub apply : TestReport F.Float → Entry → TestReport F.Float
  apply r (block n) = count_block F r n
  apply r (cut current interval) = snapshot_rx_tx_report F r current interval

  pub run : TestReport F.Float → List Entry → TestReport F.Float
  run r [] = r
  run r (e ∷ es) = run (apply r e) es

  -- The octets of the blocks, and those of the intervals that were cut.
  pub traffic : List Entry → ℕ
  traffic [] = 0
  traffic (block n ∷ es) = n + traffic es
  traffic (cut current interval ∷ es) = traffic es

  pub reported : TestReport F.Float → List Entry → ℕ
  reported r [] = 0
  reported r (block n ∷ es) = reported (apply r (block n)) es
  reported r (cut current interval ∷ es) =
      (apply r (cut current interval)).last_interval.bytes
      + reported (apply r (cut current interval)) es

  -- What no interval has reported yet.
  abbrev pub pending : TestReport F.Float → ℕ
  pending r = sub64 r.summary.bytes r.last_snapshot.bytes

  pub record Counts (r : TestReport F.Float) : Type 0 where
    pub bytes_fit : r.summary.bytes < u64_mod
    pub snapshot_fits : r.last_snapshot.bytes < u64_mod

  apply-Counts : (r : TestReport F.Float) (e : Entry) → Counts r → Counts (apply r e)
  unfolding count_block snapshot_rx_tx_report
  apply-Counts r (block n) c = ground arith
  apply-Counts r (cut current interval) c = ground arith

  block-pending :
      (r : TestReport F.Float) (n : ℕ)
      → Counts r
      → pending (count_block F r n) ≡ (n + pending r) % u64_mod
  unfolding count_block
  block-pending r n c = omega arith

  cut-pending :
      (r : TestReport F.Float) (current interval : ℕ)
      → Counts r
      → let r' = snapshot_rx_tx_report F r current interval in
        (pending r' ≡ 0) × (r'.last_interval.bytes ≡ pending r)
  unfolding snapshot_rx_tx_report
  cut-pending r current interval c = ground arith

  -- Over any sequence of blocks and snapshots no octet is lost or counted twice: what the snapshots
  -- report, with what is not in a snapshot yet, is what was pending at first and the traffic since, to
  -- 64 bits, for a report whose counts are in step.
  pub reported-traffic :
      (es : List Entry) (r : TestReport F.Float)
      → Counts r
      → (reported r es + pending (run r es)) % u64_mod ≡ (traffic es + pending r) % u64_mod
  unfolding run traffic reported
  reported-traffic [] r c = refl
  reported-traffic (block n ∷ es) r c = omega (
    arith,
    block-pending r n c,
    reported-traffic es (apply r (block n)) (apply-Counts r (block n) c),
  )
  reported-traffic (cut current interval ∷ es) r c =
      let e : Entry = cut current interval in
      omega (
        arith,
        cut-pending r current interval c,
        reported-traffic es (apply r e) (apply-Counts r e c),
      )

  -- The receiver's final summary counts as lost the datagrams that the sender sent and the receiver does
  -- not have, never below zero, and takes the sender's count as the total, for counts below 2^63.
  pub gen_receive_summary-lost :
      (sender receiver : TestReport F.Float) (interval : F.Float)
      → sender.summary.datagrams < 2 ^ 63
      → receiver.summary.datagrams < 2 ^ 63
      → let r = gen_receive_summary F sender receiver interval in
        (r.summary.lost_datagrams ≡ pos (sender.summary.datagrams - receiver.summary.datagrams))
        × (r.summary.datagrams ≡ sender.summary.datagrams)
        × (r.summary.bytes ≡ receiver.summary.bytes)
  unfolding gen_receive_summary with_bitrate
  gen_receive_summary-lost sender receiver interval hs hr = (ground arith, refl, refl)
