-- ===== src/Transfer/Queueing.antt =====
-- The queue that the sender's constructor makes.

use bats_protocol_api.Prelude.{
  List, ℕ, ◌∷◌, ◌≡◌, ◌+◌, ◌%◌, [], ◌^◌, length, ◌≤◌, arith, Option-cases, inl, inr, Bool-cases,
}
use bats_protocol_api.Transfer.Session.{enqueue, Sizes, mem_octets}
use bats_protocol_api.Transfer.{File}
use bats_protocol_api.Prelude.Octets.{Octets}

pub total_of : List File → ℕ
total_of [] = 0
total_of (file ∷ files) = file.file_sz + total_of files

-- The total that the sender's constructor counts is the sum of the sizes in its queue, to 64 bits, and
-- the queue has at most as many files as there are paths.
pub enqueue_lem :
    (sizes : Sizes) (seen : List Octets) (i : ℕ) (paths : List Octets)
    → ((enqueue sizes seen i paths).1 ≡ total_of (enqueue sizes seen i paths).0 % 2 ^ 64)
      × (length (enqueue sizes seen i paths).0 ≤ length paths)
unfolding enqueue total_of
enqueue_lem sizes seen i [] = (omega arith, omega arith)
enqueue_lem sizes seen i (path ∷ paths) =
    let r = enqueue_lem sizes (path ∷ seen) (i + 1) paths in
    elim (Option-cases (sizes path)) [
      | inl q ↦ ground (arith, r)
      | inr (size, q) ↦ elim (Bool-cases (mem_octets path seen)) [
        | inl m ↦ ground (arith, r)
        | inr m ↦ ground (arith, r)
      ]
    ]
