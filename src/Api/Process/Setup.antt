-- ===== src/Api/Process/Setup.antt =====
-- What InitFromArgs of iperf_bats_api.cc leaves behind for RunTest and RunServer.
use bats_protocol_api.Stream.{Platform}
use bats_protocol_api.Common.{
  TestRole, role_file_sender, role_sender, role_receiver, role_file_receiver, role_none,
  role_observer, is_sender_role, is_receiver_role,
}
use bats_protocol_api.Api.Process.{
  Host, start_as_sender, Api, new_sender, start_as, start_as_receiver, open_log_file, final_role,
  init_from_args, set_log_paths, after_parsing, parsed, new_api, parsing_of, parent_path,
}
use bats_protocol_api.Api.Tests.{ApiTest, id_of, file_transfer, speed_test, prepare, test_number}
use bats_protocol_api.Prelude.Results.{Result, fault, ok, ◌>>=◌}
use bats_protocol_api.Api.{validate_client_config, validate_server_config}
use bats_protocol_api.Prelude.Tables.{insert}
use bats_protocol_api.Prelude.{
  ◌≡◌, true, ℕ, [], ◌∷◌, Bool-cases, inr, ◌==◌, inl, refl, ◌∙◌, List, subst, sym, arith,
}
use bats_protocol_api.Common.Address.{read_ip_address}
use bats_protocol_api.Prelude.Int.{◌-ℤ◌, pos}
use bats_protocol_api.Api.Arguments.{Outcome, returns, goes_on}
use bats_protocol_api.Prelude.Octets.{is_empty, Octets}
use bats_protocol_api.Api.Arguments.Roles.{Ends, Follows, IsAfter, parse_args-Ends}

-- Roles that the loop over the arguments can leave.
abbrev IsChosen : TestRole → Type 0
IsChosen role_file_receiver = ⊥
IsChosen _ = Unit

final_role-IsChosen :
    (r : TestRole) (files : List Octets) → IsAfter role_none r → IsChosen (final_role r files)
unfolding final_role
final_role-IsChosen role_sender [] h = tt
final_role-IsChosen role_sender (f ∷ files) h = tt
final_role-IsChosen role_none files h = tt
final_role-IsChosen role_receiver files h = tt
final_role-IsChosen role_file_sender files h = tt
final_role-IsChosen role_observer files h = tt
final_role-IsChosen role_file_receiver files h = absurd (ground (arith, h))

module _ {P : Platform} where
  -- The test that stands in a sender's table: a transfer for files, a speed test otherwise.
  abbrev pub IsFor : TestRole → ApiTest P → Type 0
  IsFor role_file_sender (file_transfer t) = Unit
  IsFor role_sender (speed_test t) = Unit
  IsFor _ _ = ⊥

  -- What holds for the role that is returned: a sender has a valid configuration and its one test,
  -- a receiver a valid configuration, no test and the port of the control channel.
  abbrev pub IsSetUp : Host P → TestRole → Api P → Type 0
  IsSetUp h role_sender a =
      (validate_client_config P.floating h.exists a.config ≡ true)
      × (k : ℕ) × (t : ApiTest P) × (a.tests ≡ (k, t) ∷ [])
      × IsFor role_sender t
  IsSetUp h role_file_sender a =
      (validate_client_config P.floating h.exists a.config ≡ true)
      × (k : ℕ) × (t : ApiTest P) × (a.tests ≡ (k, t) ∷ [])
      × IsFor role_file_sender t
  IsSetUp h role_receiver a =
      (validate_server_config P.floating a.interface_name
          (read_ip_address h.interfaces a.interface_name) a.config
        ≡ true)
      × (a.tests ≡ [])
      × (a.server_listen_port ≡ a.config.port -ℤ pos 1)
  IsSetUp h role_file_receiver a = ⊥
  IsSetUp h role_none a = Unit
  IsSetUp h role_observer a = Unit

  SetUp : Host P → Result (Api P × TestRole) → Type 0
  SetUp h (fault e) = Unit
  SetUp h (ok (a, r)) = IsSetUp h r a

  IsFor-new_sender :
      (h : Host P) (a : Api P) (r : TestRole)
      → a.role ≡ r
      → is_sender_role r ≡ true
      → IsFor r (new_sender h a)
  unfolding new_sender prepare is_sender_role
  IsFor-new_sender h a role_sender e s = rw e tt
  IsFor-new_sender h a role_file_sender e s = rw e tt
  IsFor-new_sender h a role_none e s = cc
  IsFor-new_sender h a role_receiver e s = cc
  IsFor-new_sender h a role_file_receiver e s = cc
  IsFor-new_sender h a role_observer e s = cc

  -- The one entry of the table.
  with_test :
      (h : Host P) (r : TestRole) (a : Api P) (k : ℕ) (t : ApiTest P)
      → is_sender_role r ≡ true
      → validate_client_config P.floating h.exists a.config ≡ true
      → IsFor r t
      → IsSetUp h r (record a { tests = (k, t) ∷ [] })
  unfolding is_sender_role
  with_test h role_sender a k t s v f = (v, k, t, refl, f)
  with_test h role_file_sender a k t s v f = (v, k, t, refl, f)
  with_test h role_none a k t s v f = tt
  with_test h role_receiver a k t s v f = cc
  with_test h role_file_receiver a k t s v f = cc
  with_test h role_observer a k t s v f = tt

  started_sender :
      (h : Host P) (a : Api P)
      → a.tests ≡ []
      → is_sender_role a.role ≡ true
      → SetUp h (start_as_sender h a)
  unfolding SetUp start_as_sender id_of insert new_sender
  started_sender h a none_yet s =
      elim (Bool-cases (validate_client_config P.floating h.exists a.config)) [
        | inr v ↦ rw v tt
        | inl v ↦ elim (Bool-cases (test_number (new_sender h a) == 0)) [
          | inl z ↦ rw (v, z) tt
          | inr z ↦
              rw (v, z, none_yet)
                (with_test h a.role a (test_number (new_sender h a)) (new_sender h a) s v
                  (IsFor-new_sender h a a.role refl s))
        ]
      ]

  received :
      (h : Host P) (r : TestRole) (a : Api P)
      → IsChosen r
      → is_receiver_role r ≡ true
      → validate_server_config P.floating a.interface_name
          (read_ip_address h.interfaces a.interface_name)
          a.config
        ≡ true
      → a.tests ≡ []
      → IsSetUp h r (record a { server_listen_port = a.config.port -ℤ pos 1 })
  unfolding is_receiver_role
  received h role_receiver a c s v n = (v, n, refl)
  received h role_none a c s v n = tt
  received h role_sender a c s v n = cc
  received h role_file_sender a c s v n = cc
  received h role_file_receiver a c s v n = absurd c
  received h role_observer a c s v n = tt

  started_receiver :
      (h : Host P) (a : Api P)
      → a.tests ≡ []
      → IsChosen a.role
      → is_receiver_role a.role ≡ true
      → SetUp h (start_as_receiver h a)
  unfolding SetUp start_as_receiver
  started_receiver h a n c s =
      let address = read_ip_address h.interfaces a.interface_name in
      elim (Bool-cases (validate_server_config P.floating a.interface_name address a.config)) [
        | inr v ↦ rw v tt
        | inl v ↦ rw v (received h a.role a c s v n)
      ]

  started : (h : Host P) (a : Api P) → a.tests ≡ [] → IsChosen a.role → SetUp h (start_as h a)
  unfolding SetUp start_as
  started h a n c = elim (Bool-cases (is_receiver_role a.role)) [
    | inl r ↦ rw r (started_receiver h a n c r)
    | inr r ↦ elim (Bool-cases (is_sender_role a.role)) [
      | inl s ↦ rw (r, s) (started_sender h a n s)
      | inr s ↦ rw (r, s) tt
    ]
  ]

  -- Opening the log changes neither the role nor the tests.
  abbrev Opened : Api P → Result (Api P) → Type 0
  Opened a (fault e) = Unit
  Opened a (ok b) = (b.role ≡ a.role) × (b.tests ≡ a.tests)

  open_log_file-Opened : (h : Host P) (a : Api P) → Opened a (open_log_file h a)
  unfolding open_log_file
  open_log_file-Opened h a = elim (Bool-cases (is_empty a.log_file)) [
    | inl e ↦ rw e (refl, refl)
    | inr e ↦ elim (Bool-cases (h.exists (parent_path a.log_file))) [
      | inl x ↦ rw (e, x) (refl, refl)
      | inr x ↦ elim (Bool-cases (h.creates (parent_path a.log_file))) [
        | inl y ↦ rw (e, x, y) (refl, refl)
        | inr y ↦ rw (e, x, y) tt
      ]
    ]
  ]

  set_log_paths_lem :
      (a : Api P) → ((set_log_paths a).role ≡ a.role) × ((set_log_paths a).tests ≡ a.tests)
  unfolding set_log_paths
  set_log_paths_lem a = elim (Bool-cases (is_empty a.bats_log_path)) [
    | inl e ↦ rw e (refl, refl)
    | inr e ↦ rw e (refl, refl)
  ]

  then_started :
      (h : Host P) (b : Api P) (role : TestRole) (r : Result (Api P))
      → Opened b r
      → b.tests ≡ []
      → b.role ≡ role
      → IsChosen role
      → SetUp h (r >>= λ c. start_as h (record c { config = record c.config { role = role } }))
  unfolding SetUp
  then_started h b role (fault e) o n q c = tt
  then_started h b role (ok u) o n q c =
      started h (record u { config = record u.config { role = role } }) (o.1 ∙ n)
        (subst (λ (r : TestRole). IsChosen r) (sym (o.0 ∙ q)) c)

  after_parsing-SetUp :
      (h : Host P) (a : Api P) (o : Outcome P.floating)
      → a.tests ≡ []
      → Follows role_none o
      → SetUp h (after_parsing h a o)
  unfolding SetUp after_parsing parsed
  after_parsing-SetUp h a (returns r p) n f = elim f.0 [
    | inl e ↦ subst (λ (s : TestRole). IsSetUp h s (parsed p a)) (sym e) tt
    | inr e ↦ subst (λ (s : TestRole). IsSetUp h s (parsed p a)) (sym e) tt
  ]
  after_parsing-SetUp h a (goes_on p) n f =
      let role = final_role p.role p.config.files in
      let b = record (parsed p a) { role = role } in
      then_started h (set_log_paths b) role (open_log_file h (set_log_paths b))
        (open_log_file-Opened h (set_log_paths b)) ((set_log_paths_lem b).1 ∙ n)
        (set_log_paths_lem b).0 (final_role-IsChosen p.role p.config.files f)

  then_after :
      (h : Host P) (a : Api P) (r : Result (Outcome P.floating))
      → a.tests ≡ []
      → Ends role_none r
      → SetUp h (r >>= after_parsing h a)
  unfolding SetUp
  then_after h a (fault e) n f = tt
  then_after h a (ok o) n f = after_parsing-SetUp h a o n f

  init_from_args-SetUp :
      (h : Host P) (args : List Octets) → SetUp h (init_from_args h args (new_api P))
  unfolding SetUp init_from_args new_api parsing_of
  init_from_args-SetUp h [] = tt
  init_from_args-SetUp h (arg ∷ args) =
      then_after h (new_api P) _ refl (parse_args-Ends h.stof (arg ∷ args) (parsing_of (new_api P)))

  -- Whatever the arguments: if InitFromArgs of a new process comes back with the role of a sender
  -- (of data or of files), the configuration passes the client's validation and the table has
  -- exactly one test, a speed test or a file transfer as the role says; with the role of a
  -- receiver, the configuration passes the server's validation, the table is empty and the port to
  -- listen on is the one below the data's. It never comes back with the role of a file receiver.
  pub init_from_args-IsSetUp :
      (h : Host P) (args : List Octets) {a : Api P} {r : TestRole}
      → init_from_args h args (new_api P) ≡ ok (a, r)
      → IsSetUp h r a
  unfolding SetUp
  init_from_args-IsSetUp h args e =
      subst (λ (x : Result (Api P × TestRole)). SetUp h x) e (init_from_args-SetUp h args)
