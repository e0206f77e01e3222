-- ===== src/Test/Ending.antt =====
-- How a test ends: IsStreamReady, IsStreamDone and Stop.
use bats_protocol_api.Stream.{Platform, IperfStream}
use bats_protocol_api.Test.Status.{
  remaining, is_stream_done, has_done, is_stream_ready, is_connected,
}
use bats_protocol_api.Prelude.{
  Bool, List, ◌∷◌, ◌≡◌, true, some, [], length, ◌∙◌, ℕ, Bool-cases, ap, inl, suc, arith, inr, subst,
  ◌↔◌, ◌⊎◌, if◌then◌else◌, none, false, refl, Option-cases,
}
use bats_protocol_api.Prelude.Int.{ℤ, ◌-ℤ◌, pos, eq_of_parts, -ℤ_parts, ◌==ℤ◌, negsuc}
use bats_protocol_api.Test.{IperfTest}
use bats_protocol_api.Prelude.Octets.{is_empty}

one_more : (n : ℤ) (k : ℕ) → (n -ℤ pos 1) -ℤ pos k ≡ n -ℤ pos (suc k)
one_more n k =
    eq_of_parts _ _
      (omega (arith, -ℤ_parts n (pos 1), -ℤ_parts (n -ℤ pos 1) (pos k), -ℤ_parts n (pos (suc k))))

minus_zero : (n : ℤ) → n ≡ n -ℤ pos 0
minus_zero n = eq_of_parts _ _ (omega (arith, -ℤ_parts n (pos 0)))

is_zero_left : (n : ℤ) (k : ℕ) → ((n -ℤ pos k) ==ℤ pos 0) ≡ true ↔ n ≡ pos k
unfolding ◌-ℤ◌
is_zero_left (pos n) k = ground arith
is_zero_left (negsuc n) k = ground arith

module _ {P : Platform} where
  -- Every stream passes the test.
  pub Every : (IperfStream P → Bool) → List (IperfStream P) → Type 0
  Every test [] = Unit
  Every test (s ∷ streams) = (test s ≡ true) × Every test streams

  remaining_lem :
      (test : IperfStream P → Bool) (n : ℤ) (streams : List (IperfStream P)) (left : ℤ)
      → remaining test n streams ≡ some left
      → Every test streams × (left ≡ n -ℤ pos (length streams))
  unfolding remaining Every
  remaining_lem test n [] left e = (tt, subst (λ (k : ℤ). left ≡ k) (minus_zero n) (ground arith))
  remaining_lem test n (s ∷ streams) left e = elim (Bool-cases (test s)) [
    | inl q ↦
        (let r = remaining_lem test (n -ℤ pos 1) streams left (ground arith) in
          ((q, r.0), r.1 ∙ one_more n (length streams)))
    | inr q ↦ absurd (ground arith)
  ]

  remaining-Every :
      (test : IperfStream P → Bool) (n : ℤ) (streams : List (IperfStream P))
      → Every test streams
      → remaining test n streams ≡ some (n -ℤ pos (length streams))
  unfolding remaining Every
  remaining-Every test n [] e = ap some (minus_zero n)
  remaining-Every test n (s ∷ streams) e =
      let r =
        remaining-Every test (n -ℤ pos 1) streams e.1 ∙ ap some (one_more n (length streams)) in
      ground (arith, e.0, r)

  all_and_no_more :
      (test : IperfStream P → Bool) (n : ℤ) (streams : List (IperfStream P))
      → (elim (remaining test n streams) [ none ↦ false | some left ↦ left ==ℤ pos 0 ] ≡ true)
        ↔ (Every test streams × (n ≡ pos (length streams)))
  all_and_no_more test n streams = (
    λ e. elim (Option-cases (remaining test n streams)) [
      | inl q ↦ absurd (ground arith)
      | inr (left, q) ↦
          (let r = remaining_lem test n streams left q in
            let z = is_zero_left n (length streams) in (r.0, z.0 (ground arith)))
    ],
    λ (every, count).
        (let r = remaining-Every test n streams every in
          let z = (is_zero_left n (length streams)).1 count in ground arith),
  )

  done_among :
      (n : ℤ) (streams : List (IperfStream P))
      → ((if is_empty streams
            then true
            else elim (remaining has_done n streams) [ none ↦ false | some left ↦ left ==ℤ pos 0 ])
          ≡ true)
        ↔ ((streams ≡ []) ⊎ (Every has_done streams × (n ≡ pos (length streams))))
  done_among n [] = (λ e. inl refl, λ e. refl)
  done_among n (s ∷ streams) =
      let a = all_and_no_more has_done n (s ∷ streams) in
      (λ e. inr (a.0 e), λ h. elim h [ inl q ↦ absurd (ground arith) | inr w ↦ a.1 w ])

  -- IsStreamDone answers true exactly when the test has no stream, or all its streams are done and
  -- there are as many of them as the configuration says.
  pub is_stream_done_iff :
      (t : IperfTest P)
      → (is_stream_done t ≡ true) ↔ (
          (t.streams ≡ [])
          ⊎ (Every has_done t.streams × (t.config.num_streams ≡ pos (length t.streams))))
  unfolding is_stream_done
  is_stream_done_iff t = done_among t.config.num_streams t.streams

  ready_answer :
      (t : IperfTest P)
      → (is_stream_ready t).1 ≡ elim (remaining is_connected t.config.num_streams t.streams) [
        | none ↦ false
        | some left ↦ left ==ℤ pos 0
      ]
  unfolding is_stream_ready
  ready_answer t = elim (Option-cases (remaining is_connected t.config.num_streams t.streams)) [
    | inl q ↦ ground arith
    | inr (left, q) ↦ ground arith
  ]

  -- IsStreamReady answers true exactly when all streams are connected and there are as many of them
  -- as the configuration says, whether or not the peer has said that it is ready.
  pub is_stream_ready_iff :
      (t : IperfTest P)
      → ((is_stream_ready t).1 ≡ true)
        ↔ (Every is_connected t.streams × (t.config.num_streams ≡ pos (length t.streams)))
  is_stream_ready_iff t =
      rw (ready_answer t) (all_and_no_more is_connected t.config.num_streams t.streams)
