-- ===== src/Api/Polling/Releasing.antt =====
-- The receiver's loop: what becomes of the tests that are finished.

use bats_protocol_api.Prelude.{
  List, ◌∷◌, ◌++◌, inl, inr, ◌≡◌, ℕ, Bool, ◌⊎◌, [], ◌+◌, ◌<◌, length, Bool-cases, not, arith, ◌||◌,
  map, ltb, ap,
}
use bats_protocol_api.Stream.{Platform}
use bats_protocol_api.Api.Polling.{PollRound, age, Receiving, let_go, receiver_round, poll_tests}
use bats_protocol_api.Api.Tests.{ApiTest}
use bats_protocol_api.Prelude.Results.{
  Result, ok, ◌>>=◌, Ensures, Ensures-after, Ensures-at, Ensures-bind,
}

unfoldable pub In : {A : Type 0} → A → List A → Type 0
In a [] = ⊥
In a (b ∷ bs) = (a ≡ b) ⊎ In a bs

module _ {A : Type 0} where
  In-append_left : (a : A) (xs ys : List A) → In a xs → In a (xs ++ ys)
  unfolding In
  In-append_left a [] ys h = absurd h
  In-append_left a (x ∷ xs) ys (inl e) = inl e
  In-append_left a (x ∷ xs) ys (inr h) = inr (In-append_left a xs ys h)

  In-append_right : (a : A) (xs ys : List A) → In a ys → In a (xs ++ ys)
  unfolding In
  In-append_right a [] ys h = h
  In-append_right a (x ∷ xs) ys h = inr (In-append_right a xs ys h)

module _ {P : Platform} where
  -- Rounds of the loop, one behind the other.
  unfoldable pub receiver_rounds : List (PollRound P) → Receiving P → Result (Receiving P)
  receiver_rounds [] s = ok s
  receiver_rounds (r ∷ rounds) s = do t ← receiver_round r s; receiver_rounds rounds t

  -- A test that is kept with the count `n` is let go, or kept with one more; it is not kept beyond
  -- the count 11.
  Ages : Bool → ApiTest P → ℕ → List (ApiTest P × ℕ) → Type 0
  Ages connected t n dying =
      In t (let_go connected dying) ⊎ (In (t, n + 1) (age connected dying) × (n < 11))

  aged_head :
      (connected : Bool) (t u : ApiTest P) (n k : ℕ) (dying : List (ApiTest P × ℕ))
      → ◌≡◌ {A = ApiTest P × ℕ} (t, n) (u, k)
      → Ages connected t n ((u, k) ∷ dying)
  unfolding Ages In age let_go
  aged_head connected t u n k dying e = elim (Bool-cases (not connected || ltb 10 k)) [
    | inl old ↦ rw old (inl (inl (ap (λ (p : ApiTest P × ℕ). p.0) e)))
    | inr young ↦
        let same : n ≡ k = ap (λ (p : ApiTest P × ℕ). p.1) e in
        let kept : ◌≡◌ {A = ApiTest P × ℕ} (t, n + 1) (u, k + 1) =
          ap (λ (p : ApiTest P × ℕ). (p.0, p.1 + 1)) e in
        rw young (inr (inl kept, ground (arith, young, same)))
  ]

  aged_tail :
      (connected : Bool) (t u : ApiTest P) (n k : ℕ) (dying : List (ApiTest P × ℕ))
      → Ages connected t n dying
      → Ages connected t n ((u, k) ∷ dying)
  unfolding Ages In age let_go
  aged_tail connected t u n k dying h = elim (Bool-cases (not connected || ltb 10 k)) [
    | inl old ↦ rw old (elim h [ inl g ↦ inl (inr g) | inr a ↦ inr (a.0, a.1) ])
    | inr young ↦ rw young (elim h [ inl g ↦ inl g | inr a ↦ inr (inr a.0, a.1) ])
  ]

  aged :
      (connected : Bool) (t : ApiTest P) (n : ℕ) (dying : List (ApiTest P × ℕ))
      → In (t, n) dying
      → Ages connected t n dying
  unfolding In
  aged connected t n [] h = absurd h
  aged connected t n ((u, k) ∷ dying) (inl e) = aged_head connected t u n k dying e
  aged connected t n ((u, k) ∷ dying) (inr h) =
      aged_tail connected t u n k dying (aged connected t n dying h)

  -- A test that was let go stays so; one that is kept is let go or kept with one more.
  AfterRound : Receiving P → Receiving P → Type 0
  AfterRound s u =
      ((t : ApiTest P) → In t s.released → In t u.released)
      × ((t : ApiTest P) (n : ℕ)
          → In (t, n) s.dying
          → In t u.released ⊎ (In (t, n + 1) u.dying × (n < 11)))

  receiver_round-AfterRound :
      (r : PollRound P) (s : Receiving P) → Ensures (AfterRound s) (receiver_round r s)
  unfolding receiver_round AfterRound Ages
  receiver_round-AfterRound r s =
      let a = r.between s.api in
      Ensures-after (AfterRound s) (poll_tests r.visit a.tests) _ λ (kept, finished).
        let dying = s.dying ++ map (λ t. (t, 0)) finished in
        (
          (λ t h. In-append_right t (let_go a.is_ctrl_chn_connected dying) s.released h),
          (λ t n h.
              elim (aged a.is_ctrl_chn_connected t n dying
                (In-append_left (t, n) s.dying (map (λ t. (t, 0)) finished) h)) [
                  | inl g ↦
                      inl (In-append_left t (let_go a.is_ctrl_chn_connected dying) s.released g)
                  | inr k ↦ inr k
                ]),
        )

  stays_released :
      (t : ApiTest P) (rounds : List (PollRound P)) (s : Receiving P)
      → In t s.released
      → Ensures (λ (u : Receiving P). In t u.released) (receiver_rounds rounds s)
  unfolding receiver_rounds AfterRound
  stays_released t [] s h = h
  stays_released t (r ∷ rounds) s h =
      Ensures-bind (AfterRound s) _ (receiver_round r s) (receiver_rounds rounds)
        (receiver_round-AfterRound r s) λ u a. stays_released t rounds u (a.0 t h)

  comes_released :
      (t : ApiTest P) (n : ℕ) (rounds : List (PollRound P)) (s : Receiving P)
      → In (t, n) s.dying
      → 11 < n + length rounds
      → n < 12
      → Ensures (λ (u : Receiving P). In t u.released) (receiver_rounds rounds s)
  unfolding receiver_rounds AfterRound
  comes_released t n [] s h l k = absurd (omega arith)
  comes_released t n (r ∷ rounds) s h l k =
      Ensures-bind (AfterRound s) _ (receiver_round r s) (receiver_rounds rounds)
        (receiver_round-AfterRound r s)
        λ u a. elim (a.1 t n h) [
          | inl g ↦ stays_released t rounds u g
          | inr d ↦ comes_released t (n + 1) rounds u d.0 (omega arith) (omega (arith, d.1))
        ]

  -- A finished test that the receiver keeps with the count `n` is let go within the next 12 - n
  -- rounds of its loop, whatever happens meanwhile and whatever those rounds bring in addition, if
  -- they come back.
  pub receiver_rounds-released :
      (t : ApiTest P) (n : ℕ) (rounds : List (PollRound P)) (s : Receiving P) {u : Receiving P}
      → In (t, n) s.dying
      → n < 12
      → 11 < n + length rounds
      → receiver_rounds rounds s ≡ ok u
      → In t u.released
  receiver_rounds-released t n rounds s {u} h k l e =
      Ensures-at (λ (u : Receiving P). In t u.released) (receiver_rounds rounds s)
        (comes_released t n rounds s h l k) e
