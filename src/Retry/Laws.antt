-- ===== src/Retry/Laws.antt =====
-- When the retry loop ends, and what its result says.
use bats_protocol_api.Prelude.{
  ◌≡◌, refl, Bool, true, false, ◌&&◌, ◌||◌, some, none, List, [], ◌∷◌, ◌++◌, arith, if◌then◌else◌,
}
use bats_protocol_api.Retry.{Poll, retry}

-- The loop leaves at this round if it gets there.
abbrev pub ends : Poll → Bool
ends p = p.halted || p.failed || p.writable && p.accepted

abbrev pub all_wait : List Poll → Bool
all_wait [] = true
all_wait (p ∷ polls) = (if ends p then false else true) && all_wait polls

-- The retry loop ends at the first poll that halts it, reports an error, or takes the data when the
-- connection is writable, and answers true exactly in the last case.
pub retry-ends :
    (before : List Poll) (p : Poll) (after : List Poll)
    → all_wait before ≡ true
    → ends p ≡ true
    → retry false (before ++ p ∷ after) ≡ some (if p.halted || p.failed then false else true)
unfolding retry
retry-ends [] p after w e = ground arith
retry-ends (q ∷ before) p after w e = ground (arith, retry-ends before p after)

pub retry-none : (polls : List Poll) → all_wait polls ≡ true → retry false polls ≡ none
unfolding retry
retry-none [] w = refl
retry-none (p ∷ polls) w = ground (arith, retry-none polls)
