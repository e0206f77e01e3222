-- ===== src/Api/Validation.antt =====
-- What a validated configuration promises to the file transfer.

use bats_protocol_api.Prelude.{
  ℕ, List, ◌∷◌, ◌≤◌, Bool, ◌+◌, length, ◌<◌, arith, Option-cases, [], inl, inr, Bool-cases, ◌≡◌,
  subst, true, sym, ◌⊎◌, ◌^◌, leb, ◌||◌, refl,
}
use bats_protocol_api.Transfer.Session.{enqueue, Sizes, new_sending, mem_octets}
use bats_protocol_api.Api.{validate_files, validate_client_config}
use bats_protocol_api.Prelude.Floating.{Floating}
use bats_protocol_api.Common.{is_reliable_protocol, role_file_sender}
use bats_protocol_api.Prelude.Octets.{Octets}
use bats_protocol_api.Transfer.{File}
use bats_protocol_api.Common.Config.{TestConfig}
use bats_protocol_api.Prelude.Int.{neg_part, pos_part, pos, ℤ, ◌==ℤ◌, wrap, negsuc}

pub AllBelow : ℕ → List File → Type 0
AllBelow n [] = Unit
AllBelow n (file ∷ files) = (file.bar_id < n) × AllBelow n files

AllBelow-le : (n m : ℕ) (files : List File) → n ≤ m → AllBelow n files → AllBelow m files
unfolding AllBelow
AllBelow-le n m [] h a = tt
AllBelow-le n m (file ∷ files) h a = (omega (arith, a.0), AllBelow-le n m files h a.1)

enqueue-step :
    (sizes : Sizes) (seen : List Octets) (i : ℕ) (path : Octets) (paths : List Octets)
    → let rest = (enqueue sizes (path ∷ seen) (i + 1) paths).0 in
      ((enqueue sizes seen i (path ∷ paths)).0 ≡ rest)
      ⊎ ((size : ℕ) × ((enqueue sizes seen i (path ∷ paths)).0
            ≡ record { bar_id = i; file_sz = size; path = path } ∷ rest))
unfolding enqueue
enqueue-step sizes seen i path paths = elim (Option-cases (sizes path)) [
  | inl q ↦ inl (ground (arith, q))
  | inr (size, q) ↦ elim (Bool-cases (mem_octets path seen)) [
    | inl m ↦ inl (ground (arith, q, m))
    | inr m ↦ inr (size, ground (arith, q, m))
  ]
]

nothing_queued :
    (sizes : Sizes) (seen : List Octets) (i : ℕ) → AllBelow (i + 0) (enqueue sizes seen i []).0
unfolding enqueue AllBelow
nothing_queued sizes seen i = tt

enqueue-AllBelow :
    (sizes : Sizes) (seen : List Octets) (i : ℕ) (paths : List Octets)
    → AllBelow (i + length paths) (enqueue sizes seen i paths).0
unfolding AllBelow
enqueue-AllBelow sizes seen i [] = nothing_queued sizes seen i
enqueue-AllBelow sizes seen i (path ∷ paths) =
    let n = i + length (path ∷ paths) in
    let rest =
      AllBelow-le (i + 1 + length paths) n (enqueue sizes (path ∷ seen) (i + 1) paths).0
        (omega arith) (enqueue-AllBelow sizes (path ∷ seen) (i + 1) paths) in
    elim (enqueue-step sizes seen i path paths) [
      | inl q ↦ subst (λ (l : List File). AllBelow n l) (sym q) rest
      | inr (size, q) ↦ subst (λ (l : List File). AllBelow n l) (sym q) (omega arith, rest)
    ]

reliable : (z : ℤ) → (z ==ℤ pos 1 || z ==ℤ pos 2) ≡ true → is_reliable_protocol z ≡ true
unfolding is_reliable_protocol
reliable (pos n) h = ground arith
reliable (negsuc n) h = ground arith

counted_streams :
    (z : ℤ) (n : ℕ)
    → n ≤ 10
    → leb (wrap (2 ^ 64) z) n ≡ true
    → neg_part z ≤ 2 ^ 31
    → pos_part z < 2 ^ 31
    → (z ≡ pos (pos_part z)) × (pos_part z ≤ n)
counted_streams (pos k) n few h low high = (refl, ground arith)
counted_streams (negsuc k) n few h low high = absurd (ground arith)

validated :
    (F : Floating) (exists : Octets → Bool) (c : TestConfig F.Float)
    → validate_client_config F exists c ≡ true
    → c.role ≡ role_file_sender
    → validate_files F exists c ≡ true
unfolding validate_client_config
validated F exists c e r = ground (arith, e, r)

-- For a sender of files whose configuration passes ValidateClientConfig, the protocol is a reliable
-- one, each file in the queue that the constructor makes has one of the ten numbers that a block has
-- room for at the receiver, and there are no more streams than paths; the number of streams is an
-- int.
pub validate_client_config-AllBelow :
    (F : Floating) (exists : Octets → Bool) (sizes : Sizes) (id : ℕ) (c : TestConfig F.Float)
    → validate_client_config F exists c ≡ true
    → c.role ≡ role_file_sender
    → neg_part c.num_streams ≤ 2 ^ 31
    → pos_part c.num_streams < 2 ^ 31
    → (is_reliable_protocol c.protocol ≡ true)
      × AllBelow 10 (new_sending {F = F} sizes id c).pending
      × (c.num_streams ≡ pos (pos_part c.num_streams))
      × (pos_part c.num_streams ≤ length c.files)
unfolding validate_files new_sending
validate_client_config-AllBelow F exists sizes id c e r low high =
    let v = validated F exists c e r in
    let few : length c.files ≤ 10 = ground (arith, v) in
    let z = counted_streams c.num_streams (length c.files) few (ground (arith, v)) low high in
    (
      reliable c.protocol (ground (arith, v)),
      AllBelow-le (0 + length c.files) 10 (enqueue sizes [] 0 c.files).0 (omega (arith, few))
          (enqueue-AllBelow sizes [] 0 c.files),
      z.0,
      z.1,
    )
