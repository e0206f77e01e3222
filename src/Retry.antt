-- ===== src/Retry.antt =====
-- The loop `while (send_ok == false)` around SendData, which stands in example/iperf-bats/
-- iperf_stream.cc (StartSend, SendFIN, OnReceivedFIN) and iperf_file_transfer.cc
-- (CreateFileTransferThread). What other threads and the connection do meanwhile is a schedule.
pub mod Laws
use bats_protocol_api.Prelude.{ℕ, suc}
use bats_protocol_api.Prelude.{Bool, true, false, Option, some, none, List, [], ◌∷◌, if◌then◌else◌}

-- What one round reads: the loop's own test for giving up, the error flag, the writable flag, and
-- the answer that SendData would give.
pub record Poll : Type 0 where
  pub halted : Bool
  pub failed : Bool
  pub writable : Bool
  pub accepted : Bool

-- The final `send_ok`; `none` means that the loop still waits at the end of the schedule.
unfoldable pub retry : Bool → List Poll → Option Bool
retry true polls = some true
retry false [] = none
retry false (p ∷ polls) =
    let again = retry (if p.writable then p.accepted else false) polls in
    if p.halted then some false else if p.failed then some false else again

-- How often SendData is called once more, after an answer.
unfoldable pub offered_again : Bool → List Poll → ℕ
offered_again true polls = 0
offered_again false [] = 0
offered_again false (p ∷ polls) =
    let more = offered_again (if p.writable then p.accepted else false) polls in
    if p.halted then 0 else if p.failed then 0 else if p.writable then suc more else more
