-- ===== src/Api/Channel/Table.antt =====
-- The table of tests under the events of the control channel.
use bats_protocol_api.Prelude.{ap}
use bats_protocol_api.Prelude.Results.{◌>>=◌}
use bats_protocol_api.Api.Process.{note, set_callback}
use bats_protocol_api.Test.Control.{new_test}
use bats_protocol_api.Transfer.Session.{new_session}
use bats_protocol_api.Prelude.{◌⊎◌}
use bats_protocol_api.Prelude.Results.{>>=-ok, ok-injective}
use bats_protocol_api.Api.Channel.{
  handle_control_message, channel_ended, control_channel_connection_callback, end_found,
}
use bats_protocol_api.Api.Process.Stopping.{IsStopped, stop-IsStopped}
use bats_protocol_api.Api.Tests
use bats_protocol_api.Test.Number as Speed
use bats_protocol_api.Transfer.Number as Files
use bats_protocol_api.Test.Handlers
use bats_protocol_api.Transfer.Session
use bats_protocol_api.Stream.{Platform}
use bats_protocol_api.Api.Tests.{
  test_number, ApiTest, Visit, speed_test, file_transfer, id_of, close_ctrl_channel, prepare,
  set_role,
}
use bats_protocol_api.Prelude.{
  ◌∷◌, List, ℕ, ◌≡◌, some, none, ◌==◌, false, ◌∙◌, arith, refl, not, Bool-cases, inl, subst, sym,
  Option-cases, inr, [], Option,
}
use bats_protocol_api.Prelude.Tables.{
  find, AllEntries, insert, update, find-update, find-insert, AllEntries-insert, AllEntries-update,
  keys, AllEntries-find,
}
use bats_protocol_api.Prelude.Octets.{Octets}
use bats_protocol_api.Prelude.Results.{
  Ensures, Ensures-bind, ok, Ensures-after, Ensures-at, require, assertion, Result, fault,
  Ensures-mono, out_of_bounds,
}
use bats_protocol_api.Wire.{ControlHeader, decode}
use bats_protocol_api.Api.Process.{Api, default_resolution}
use bats_protocol_api.Api.Channel.{end_test, handle_first, handle_known, received_test, deliver}
use bats_protocol_api.Api.{recipient, mem}
use bats_protocol_api.Common.{role_receiver}
use bats_protocol_api.Connection.{
  BatsConnEvent, connection_failed, connection_closed, connection_shutdown_by_peer,
  connection_data_received, connection_established,
}

module _ {P : Platform} where
  -- A test as HandleControlMessage makes it ready for its first message.
  abbrev pub as_receiver : ApiTest P → ApiTest P
  as_receiver t = prepare default_resolution (set_role role_receiver t)

  -- Every test stands under its number.
  abbrev pub WellKeyed : List (ℕ × ApiTest P) → Type 0
  WellKeyed tests = AllEntries (λ k t. test_number t ≡ k) tests

  handled_number :
      (v : Visit P) (conn : ℕ) (message : Octets) (t : ApiTest P)
      → Ensures
          (λ (u : ApiTest P). test_number u ≡ test_number t)
          (Tests.handle_control_message v conn message t)
  unfolding Tests.handle_control_message test_number
  handled_number v conn message (speed_test t) =
      Ensures-bind (Speed.HasNumber t.test_id) _
        (Handlers.handle_control_message v.moment conn message t) _
        (Speed.handle_control_message-HasNumber v.moment conn message t) λ u e. e
  handled_number v conn message (file_transfer t) =
      Ensures-bind (Files.HasNumber t.test_id) _
        (Session.handle_control_message v.available conn message t) _
        (Files.handle_control_message-HasNumber v.available conn message t) λ u e. e

  handled_test_id :
      (v : Visit P) (conn : ℕ) (message : Octets) (t : ApiTest P) {header : ControlHeader}
      → decode message ≡ some header
      → Ensures
          (λ (u : ApiTest P). test_number u ≡ header.test_id)
          (Tests.handle_control_message v conn message t)
  unfolding Tests.handle_control_message test_number
  handled_test_id v conn message (speed_test t) {header} q =
      Ensures-bind (Speed.HasNumber header.test_id) _
        (Handlers.handle_control_message v.moment conn message t) _
        (Speed.handle_control_message-test_id v.moment conn message t q) λ u e. e
  handled_test_id v conn message (file_transfer t) {header} q =
      Ensures-bind (Files.HasNumber header.test_id) _
        (Session.handle_control_message v.available conn message t) _
        (Files.handle_control_message-test_id v.available conn message t q) λ u e. e

  -- What a message does to the table: the test with its number is there, the others are as before.
  abbrev pub Delivers : ℕ → List (ℕ × ApiTest P) → List (ℕ × ApiTest P) → Type 0
  Delivers k before after =
      ((t : ApiTest P) × (find k after ≡ some t) × (test_number t ≡ k))
      × ((i : ℕ) → (i == k) ≡ false → find i after ≡ find i before)
      × (WellKeyed before → WellKeyed after)

  inserted :
      (k : ℕ) (u : ApiTest P) (tests : List (ℕ × ApiTest P))
      → find k tests ≡ none
      → test_number u ≡ k
      → Delivers k tests (insert k u tests)
  inserted k u tests n e = (
    (u, find-insert k k u tests n ∙ ground arith, e),
    (λ i h. find-insert k i u tests n ∙ rw h refl),
    (λ w. AllEntries-insert (λ (j : ℕ) (t : ApiTest P). test_number t ≡ j) k u tests e w),
  )

  updated :
      (k : ℕ) (t u : ApiTest P) (tests : List (ℕ × ApiTest P))
      → find k tests ≡ some t
      → test_number u ≡ k
      → Delivers k tests (update k u tests)
  updated k t u tests n e = (
    (u, find-update k k u t tests n ∙ ground arith, e),
    (λ i h. find-update k i u t tests n ∙ rw h refl),
    (λ w. AllEntries-update (λ (j : ℕ) (t : ApiTest P). test_number t ≡ j) k u tests e w),
  )

  find-of_mem :
      (k : ℕ) (tests : List (ℕ × ApiTest P)) → mem k (keys tests) ≡ false → find k tests ≡ none
  unfolding find keys
  find-of_mem k [] h = refl
  find-of_mem k ((j, t) ∷ tests) h = ground (arith, find-of_mem k tests)

  DeliversTo : ℕ → Api P → Api P → Type 0
  DeliversTo k a b = Delivers k a.tests b.tests

  id_of-number : (u : ApiTest P) → Ensures (λ (i : ℕ). i ≡ test_number u) (id_of u)
  unfolding id_of
  id_of-number u =
      Ensures-after (λ (i : ℕ). i ≡ test_number u) (require (not (test_number u == 0)) assertion)
        (λ done. ok (test_number u)) λ done. refl

  first-Delivers :
      (v : Visit P) (conn : ℕ) (message : Octets) (t : ApiTest P) (a : Api P)
      {header : ControlHeader}
      → decode message ≡ some header
      → find header.test_id a.tests ≡ none
      → Ensures (DeliversTo header.test_id a) (handle_first v conn message t a)
  unfolding handle_first DeliversTo
  first-Delivers v conn message t a {header} q n =
      let k = header.test_id in
      let Q = DeliversTo k a in
      let new = prepare default_resolution (set_role role_receiver t) in
      Ensures-bind (λ (u : ApiTest P). test_number u ≡ k) Q
        (Tests.handle_control_message v conn message new) _ (handled_test_id v conn message new q)
        λ u e.
          Ensures-bind (λ (i : ℕ). i ≡ test_number u) Q (id_of u) _ (id_of-number u)
            λ i h.
              subst (λ (j : ℕ). Delivers k a.tests (insert j u a.tests)) (sym (h ∙ e))
                (inserted k u a.tests n e)

  known-Delivers :
      (v : Visit P) (conn : ℕ) (message : Octets) (t : ApiTest P) (a : Api P)
      {header : ControlHeader}
      → decode message ≡ some header
      → find header.test_id a.tests ≡ some t
      → Ensures (DeliversTo header.test_id a) (handle_known v conn message header t a)
  unfolding handle_known DeliversTo
  known-Delivers v conn message t a {header} q n =
      let k = header.test_id in
      Ensures-bind (λ (u : ApiTest P). test_number u ≡ k) (DeliversTo k a)
        (Tests.handle_control_message v conn message t) _ (handled_test_id v conn message t q)
        λ u e. updated k t u a.tests n e

  routed :
      (v : Visit P) (conn : ℕ) (message : Octets) (a : Api P) {header : ControlHeader}
      → decode message ≡ some header
      → Ensures (DeliversTo header.test_id a) (handle_control_message v conn message a)
  unfolding handle_control_message recipient received_test deliver
  routed v conn message a {header} q = elim (Bool-cases (mem header.test_id (keys a.tests))) [
    | inl m ↦ elim (Option-cases (find header.test_id a.tests)) [
      | inl f ↦ rw (q, m, f) tt
      | inr (t, f) ↦ rw (q, m, f) (known-Delivers v conn message t a q f)
    ]
    | inr m ↦
        let n = find-of_mem header.test_id a.tests m in
        elim (Bool-cases (header.action_code == 1)) [
          | inl one ↦ rw (q, m, one) (first-Delivers v conn message _ a q n)
          | inr one ↦ elim (Bool-cases (header.action_code == 2)) [
            | inl two ↦ rw (q, m, one, two) (first-Delivers v conn message _ a q n)
            | inr two ↦ rw (q, m, one, two) tt
          ]
        ]
  ]

  -- The test that a message is for: the one of its number in the table; or a new receiving test, a
  -- file transfer for the action 1 and a speed test for the action 2, where there is none.
  abbrev pub IsFor : ControlHeader → Api P → ApiTest P → Type 0
  IsFor header a t =
      (find header.test_id a.tests ≡ some t)
      ⊎ (((find header.test_id a.tests ≡ none)
            × (header.action_code ≡ 1)
            × (t ≡ as_receiver (file_transfer (new_session header.test_id a.config))))
          ⊎ ((find header.test_id a.tests ≡ none)
              × (header.action_code ≡ 2)
              × (t ≡ as_receiver (speed_test (new_test header.test_id a.config)))))

  -- What the test makes of the message is what the table has under its number.
  abbrev pub Handles : Visit P → ℕ → Octets → ControlHeader → Api P → Api P → Type 0
  Handles v conn message header a b =
      (t : ApiTest P) × (u : ApiTest P) × IsFor header a t
      × (Tests.handle_control_message v conn message t ≡ ok u)
      × (find header.test_id b.tests ≡ some u)
      × (test_number u ≡ header.test_id)

  known-Handles :
      (v : Visit P) (conn : ℕ) (message : Octets) (t : ApiTest P) (a : Api P)
      {header : ControlHeader} {b : Api P}
      → decode message ≡ some header
      → find header.test_id a.tests ≡ some t
      → handle_known v conn message header t a ≡ ok b
      → Handles v conn message header a b
  unfolding handle_known
  known-Handles v conn message t a {header} {b} q n e =
      let k = header.test_id in
      let (u, handled, r) =
        >>=-ok (Tests.handle_control_message v conn message t)
          (λ u. ok (record a { tests = update k u a.tests })) e in
      let number =
        Ensures-at (λ (u : ApiTest P). test_number u ≡ k)
          (Tests.handle_control_message v conn message t) (handled_test_id v conn message t q)
          handled in
      let there =
        subst (λ (c : Api P). find k c.tests ≡ some u) (ok-injective _ b r)
          (find-update k k u t a.tests n ∙ ground arith) in
      (t, u, inl n, handled, there, number)

  first-Handles :
      (v : Visit P) (conn : ℕ) (message : Octets) (t : ApiTest P) (a : Api P)
      {header : ControlHeader} {b : Api P}
      → decode message ≡ some header
      → find header.test_id a.tests ≡ none
      → IsFor header a (as_receiver t)
      → handle_first v conn message t a ≡ ok b
      → Handles v conn message header a b
  unfolding handle_first
  first-Handles v conn message t a {header} {b} q n is_for e =
      let k = header.test_id in
      let new = as_receiver t in
      let stored : ℕ → ApiTest P → Api P =
        λ i u. note (set_callback conn (some i)) (record a { tests = insert i u a.tests }) in
      let (u, handled, r) =
        >>=-ok (Tests.handle_control_message v conn message new)
          (λ u. id_of u >>= λ i. ok (stored i u)) e in
      let number =
        Ensures-at (λ (u : ApiTest P). test_number u ≡ k)
          (Tests.handle_control_message v conn message new) (handled_test_id v conn message new q)
          handled in
      let (i, identified, w) = >>=-ok (id_of u) (λ i. ok (stored i u)) r in
      let same : i ≡ k =
        Ensures-at (λ (i : ℕ). i ≡ test_number u) (id_of u) (id_of-number u) identified ∙ number in
      let inserted_there : find k (insert i u a.tests) ≡ some u =
        ap (λ (j : ℕ). find k (insert j u a.tests)) same
        ∙ find-insert k k u a.tests n
        ∙ ground arith in
      let there =
        subst (λ (c : Api P). find k c.tests ≡ some u) (ok-injective _ b w) inserted_there in
      (new, u, is_for, handled, there, number)

  handled_by :
      (v : Visit P) (conn : ℕ) (message : Octets) (a : Api P) {header : ControlHeader} {b : Api P}
      → decode message ≡ some header
      → handle_control_message v conn message a ≡ ok b
      → Handles v conn message header a b
  unfolding handle_control_message recipient received_test deliver
  handled_by v conn message a {header} {b} q e =
      elim (Bool-cases (mem header.test_id (keys a.tests))) [
        | inl m ↦ elim (Option-cases (find header.test_id a.tests)) [
          | inl f ↦ absurd (ground (arith, q, m, f, e))
          | inr (t, f) ↦
              known-Handles v conn message t a {header = header} {b = b} q f
                (ground (arith, q, m, f, e))
        ]
        | inr m ↦
            let n = find-of_mem header.test_id a.tests m in
            elim (Bool-cases (header.action_code == 1)) [
              | inl one ↦
                  first-Handles v conn message (file_transfer (new_session header.test_id a.config))
                    a {header = header} {b = b} q n (inr (inl (n, ground (arith, one), refl)))
                    (ground (arith, q, m, one, e))
              | inr one ↦ elim (Bool-cases (header.action_code == 2)) [
                | inl two ↦
                    first-Handles v conn message (speed_test (new_test header.test_id a.config)) a
                      {header = header} {b = b} q n (inr (inr (n, ground (arith, two), refl)))
                      (ground (arith, q, m, one, two, e))
                | inr two ↦ absurd (ground (arith, q, m, one, two, e))
              ]
            ]
      ]

  -- A control message whose handling comes back is handled by one test: the one of its number in
  -- the table, or a new receiver, a file transfer for the action 1 and a speed test for the action 2,
  -- where the table has none. Afterwards the table has, under that number, the test that came out of
  -- its handler, with the same number, and every other entry is as it was.
  pub handle_control_message-routes :
      (v : Visit P) (conn : ℕ) (message : Octets) (a : Api P) (i : ℕ) {header : ControlHeader}
      {b : Api P}
      → decode message ≡ some header
      → handle_control_message v conn message a ≡ ok b
      → (i == header.test_id) ≡ false
      → ((t : ApiTest P) × (u : ApiTest P) × IsFor header a t
          × (Tests.handle_control_message v conn message t ≡ ok u)
          × (find header.test_id b.tests ≡ some u)
          × (test_number u ≡ header.test_id))
        × (find i b.tests ≡ find i a.tests)
  unfolding DeliversTo
  handle_control_message-routes v conn message a i {header} {b} q e h =
      let d =
        Ensures-at (DeliversTo header.test_id a) (handle_control_message v conn message a)
          (routed v conn message a q) e in
      (handled_by v conn message a q e, d.1 i h)

  undecoded :
      (v : Visit P) (conn : ℕ) (message : Octets) (a : Api P)
      → decode message ≡ none
      → handle_control_message v conn message a ≡ fault out_of_bounds
  unfolding handle_control_message
  undecoded v conn message a e = rw e refl

  KeyedBy : Api P → Api P → Type 0
  KeyedBy a b = WellKeyed a.tests → WellKeyed b.tests

  close-number : (t : ApiTest P) → test_number (close_ctrl_channel t) ≡ test_number t
  unfolding close_ctrl_channel test_number
  close-number (speed_test t) = refl
  close-number (file_transfer t) = refl

  end_test-KeyedBy : (v : Visit P) (i : ℕ) (a : Api P) → Ensures (KeyedBy a) (end_test v i a)
  unfolding end_test end_found KeyedBy
  end_test-KeyedBy v i a = elim (Option-cases (find i a.tests)) [
    | inl f ↦ rw f (λ w. w)
    | inr (t, f) ↦ rw f (
        Ensures-bind (IsStopped (test_number (close_ctrl_channel t))) (KeyedBy a)
          (Tests.stop v (close_ctrl_channel t)) _ (stop-IsStopped v (close_ctrl_channel t))
          λ u s w.
            let at : test_number t ≡ i =
              AllEntries-find (λ (j : ℕ) (t : ApiTest P). test_number t ≡ j) i t a.tests w f in
            AllEntries-update (λ (j : ℕ) (t : ApiTest P). test_number t ≡ j) i u a.tests
              (s.0 ∙ close-number t ∙ at) w)
  ]

  channel_ended-KeyedBy :
      (v : Visit P) (user : Option ℕ) (a : Api P) → Ensures (KeyedBy a) (channel_ended v user a)
  unfolding channel_ended KeyedBy
  channel_ended-KeyedBy v none a = λ w. w
  channel_ended-KeyedBy v (some i) a =
      Ensures-bind (KeyedBy a) (KeyedBy a) (end_test v i a) _ (end_test-KeyedBy v i a) λ b k. k

  message-KeyedBy :
      (v : Visit P) (conn : ℕ) (message : Octets) (a : Api P)
      → Ensures (KeyedBy a) (handle_control_message v conn message a)
  unfolding KeyedBy DeliversTo
  message-KeyedBy v conn message a = elim (Option-cases (decode message)) [
    | inl e ↦
        subst (λ (r : Result (Api P)). Ensures (KeyedBy a) r) (sym (undecoded v conn message a e))
          tt
    | inr (header, e) ↦
        Ensures-mono (DeliversTo header.test_id a) (KeyedBy a)
          (handle_control_message v conn message a) (routed v conn message a e) λ b d. d.2
  ]

  -- Each event of a control connection whose handling comes back, whatever its context, leaves every
  -- test of the table under its number, if they stood so before.
  pub connection_callback-WellKeyed :
      (event : BatsConnEvent) (v : Visit P) (conn : ℕ) (message : Octets) (user : Option ℕ)
      (a : Api P) {b : Api P}
      → control_channel_connection_callback event v conn message user a ≡ ok b
      → WellKeyed a.tests
      → WellKeyed b.tests
  unfolding KeyedBy control_channel_connection_callback
  connection_callback-WellKeyed event v conn message user a {b} e w =
      Ensures-at (KeyedBy a) (control_channel_connection_callback event v conn message user a)
        (keyed event) e w
    where
      keyed :
          (event : BatsConnEvent)
          → Ensures (KeyedBy a) (control_channel_connection_callback event v conn message user a)
      keyed connection_failed = channel_ended-KeyedBy v user a
      keyed connection_closed = channel_ended-KeyedBy v user a
      keyed connection_shutdown_by_peer = channel_ended-KeyedBy v user a
      keyed connection_data_received = message-KeyedBy v conn message a
      keyed connection_established = λ k. k
      keyed other = λ k. k
