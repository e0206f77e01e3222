-- ===== src/Api/Arguments/Roles.antt =====
-- What a command line makes of the role.

-- The role of an outcome: what it was before, if there was one.
use bats_protocol_api.Common.{
  TestRole, role_none, role_sender, role_receiver, role_observer, role_file_sender,
  role_file_receiver,
}
use bats_protocol_api.Prelude.Floating.{Floating}
use bats_protocol_api.Prelude.{
  ◌≡◌, inl, subst, ◌⊎◌, inr, refl, sym, Option, Bool-cases, some, List, ◌∷◌, Option-cases, none, [],
}
use bats_protocol_api.Api.Arguments.{
  Outcome, goes_on, returns, choose_role, Parsing, positional, without_value, set_int, set_text,
  set_real, set_flag, TextKey, Flag, RealKey, Key, then_parse, IntKey, time_key, flag, debug_flag,
  interface_key, read_arg, with_value, parse_args, last_arg, interval_key, text, reverse_flag,
  num_streams_key, log_file_key, real, takes_value, port_key, int, compression_flag, bats_log_key,
  key_of, precise_time_flag, protocol_key, help, rate_key, server, client, files_key,
}
use bats_protocol_api.Prelude.Results.{Result, fault, ok}
use bats_protocol_api.Prelude.Octets.{Octets}
use bats_protocol_api.Prelude.Int.{ℤ}
use bats_protocol_api.Prelude.Numerals.{stoi}

abbrev pub IsAfter : TestRole → TestRole → Type 0
IsAfter role_none after = (after ≡ role_none) ⊎ (after ≡ role_sender) ⊎ (after ≡ role_receiver)
IsAfter before after = after ≡ before

-- The two ways in which the loop returns early.
abbrev pub Follows : {F : Floating} → TestRole → Outcome F → Type 0
Follows before (goes_on q) = IsAfter before q.role
Follows before (returns r q) = ((r ≡ role_none) ⊎ (r ≡ role_observer)) × IsAfter before q.role

IsAfter-refl : (r : TestRole) → IsAfter r r
IsAfter-refl role_none = inl refl
IsAfter-refl role_sender = refl
IsAfter-refl role_receiver = refl
IsAfter-refl role_file_sender = refl
IsAfter-refl role_file_receiver = refl
IsAfter-refl role_observer = refl

IsAfter-trans : (a b c : TestRole) → IsAfter a b → IsAfter b c → IsAfter a c
IsAfter-trans role_none b c h k = elim h [
  | inl e ↦ subst (λ (r : TestRole). IsAfter r c) e k
  | inr (inl e) ↦ inr (inl (subst (λ (r : TestRole). IsAfter r c) e k))
  | inr (inr e) ↦ inr (inr (subst (λ (r : TestRole). IsAfter r c) e k))
]
IsAfter-trans role_sender b c h k = subst (λ (r : TestRole). IsAfter r c) h k
IsAfter-trans role_receiver b c h k = subst (λ (r : TestRole). IsAfter r c) h k
IsAfter-trans role_file_sender b c h k = subst (λ (r : TestRole). IsAfter r c) h k
IsAfter-trans role_file_receiver b c h k = subst (λ (r : TestRole). IsAfter r c) h k
IsAfter-trans role_observer b c h k = subst (λ (r : TestRole). IsAfter r c) h k

module _ {F : Floating} where
  choose_role-Follows :
      (p : Parsing F) (role : TestRole)
      → (role ≡ role_sender) ⊎ (role ≡ role_receiver)
      → Follows p.role (choose_role role p)
  unfolding choose_role
  choose_role-Follows p role h = chosen p.role refl
    where
      chosen : (before : TestRole) → p.role ≡ before → Follows p.role (choose_role role p)
      chosen role_none e = rw e (inr h)
      chosen role_sender e = rw e (inl refl, refl)
      chosen role_receiver e = rw e (inl refl, refl)
      chosen role_file_sender e = rw e (inl refl, refl)
      chosen role_file_receiver e = rw e (inl refl, refl)
      chosen role_observer e = rw e (inl refl, refl)

  -- A fault has no role.
  abbrev pub Ends : TestRole → Result (Outcome F) → Type 0
  Ends before (fault e) = Unit
  Ends before (ok o) = Follows before o

  Ends-then_parse :
      (before : TestRole) (r : Result (Outcome F)) (next : Parsing F → Result (Outcome F))
      → Ends before r
      → ((q : Parsing F) → Ends q.role (next q))
      → Ends before (then_parse r next)
  Ends-then_parse before (fault e) next h k = tt
  Ends-then_parse before (ok (returns r q)) next h k = h
  Ends-then_parse before (ok (goes_on q)) next h k = after (next q) (k q)
    where
      after : (r : Result (Outcome F)) → Ends q.role r → Ends before r
      after (fault e) f = tt
      after (ok (goes_on u)) f = IsAfter-trans before q.role u.role h f
      after (ok (returns r u)) f = (f.0, IsAfter-trans before q.role u.role h f.1)

  positional-Ends : (arg : Octets) (p : Parsing F) → Ends p.role (positional arg p)
  unfolding positional
  positional-Ends arg p = elim (Bool-cases p.is_reading_vec) [
    | inl e ↦ rw e (IsAfter-refl p.role)
    | inr e ↦ rw e (inl refl, IsAfter-refl p.role)
  ]

  set_flag-role : (k : Flag) (p : Parsing F) → (set_flag k p).role ≡ p.role
  unfolding set_flag
  set_flag-role debug_flag p = refl
  set_flag-role reverse_flag p = refl
  set_flag-role compression_flag p = refl
  set_flag-role precise_time_flag p = refl

  set_int-role : (k : IntKey) (z : ℤ) (p : Parsing F) → (set_int k z p).role ≡ p.role
  unfolding set_int
  set_int-role num_streams_key z p = refl
  set_int-role port_key z p = refl
  set_int-role protocol_key z p = refl
  set_int-role rate_key z p = refl

  set_text-role :
      (k : TextKey) (value : Octets) (p : Parsing F) → (set_text k value p).role ≡ p.role
  unfolding set_text
  set_text-role interface_key value p = refl
  set_text-role log_file_key value p = refl
  set_text-role bats_log_key value p = refl

  set_real-role : (k : RealKey) (x : F.Float) (p : Parsing F) → (set_real k x p).role ≡ p.role
  unfolding set_real
  set_real-role time_key x p = refl
  set_real-role interval_key x p = refl

  same_role : (p q : Parsing F) → q.role ≡ p.role → IsAfter p.role q.role
  same_role p q e = subst (λ (r : TestRole). IsAfter p.role r) (sym e) (IsAfter-refl p.role)

  without_value-Ends : (key : Key) (p : Parsing F) → Ends p.role (without_value key p)
  unfolding without_value
  without_value-Ends help p = (inr refl, IsAfter-refl p.role)
  without_value-Ends server p = choose_role-Follows p role_receiver (inr refl)
  without_value-Ends client p = (inl refl, IsAfter-refl p.role)
  without_value-Ends files_key p = (inl refl, IsAfter-refl p.role)
  without_value-Ends (flag k) p = same_role p (set_flag k p) (set_flag-role k p)
  without_value-Ends (real k) p = tt
  without_value-Ends (int k) p = (inl refl, IsAfter-refl p.role)
  without_value-Ends (text k) p = (inl refl, IsAfter-refl p.role)

  module _ (stof : Octets → Option F.Float) where
    with_value-Ends :
        (key : Key) (value : Octets) (p : Parsing F) → Ends p.role (with_value stof key value p)
    unfolding with_value
    with_value-Ends help value p = without_value-Ends help p
    with_value-Ends server value p = without_value-Ends server p
    with_value-Ends client value p =
        choose_role-Follows (record p { config = record p.config { peer_host = value } })
          role_sender (inl refl)
    with_value-Ends files_key value p = IsAfter-refl p.role
    with_value-Ends (flag k) value p = without_value-Ends (flag k) p
    with_value-Ends (text k) value p = same_role p (set_text k value p) (set_text-role k value p)
    with_value-Ends (real k) value p = elim (Option-cases (stof value)) [
      | inl e ↦ rw e tt
      | inr (x, e) ↦ rw e (same_role p (set_real k x p) (set_real-role k x p))
    ]
    with_value-Ends (int k) value p = elim (Option-cases (stoi value)) [
      | inl e ↦ rw e tt
      | inr (z, e) ↦ rw e (same_role p (set_int k z p) (set_int-role k z p))
    ]

    last_arg-Ends :
        (key : Option Key) (arg : Octets) (p : Parsing F) → Ends p.role (last_arg stof key arg p)
    unfolding last_arg
    last_arg-Ends none arg p = positional-Ends arg p
    last_arg-Ends (some key) arg p = without_value-Ends key p

    read_arg-Ends :
        (key : Option Key) (arg value : Octets) (behind next : Parsing F → Result (Outcome F))
        (p : Parsing F)
        → ((q : Parsing F) → Ends q.role (behind q))
        → ((q : Parsing F) → Ends q.role (next q))
        → Ends p.role (read_arg stof key arg value behind next p)
    unfolding read_arg
    read_arg-Ends none arg value behind next p h k =
        Ends-then_parse p.role (positional arg p) next (positional-Ends arg p) k
    read_arg-Ends (some key) arg value behind next p h k = elim (Bool-cases (takes_value key)) [
      | inl e ↦ rw e (
          Ends-then_parse p.role (with_value stof key value p) behind (with_value-Ends key value p)
            h)
      | inr e ↦
          rw e (Ends-then_parse p.role (without_value key p) next (without_value-Ends key p) k)
    ]

    -- Whatever the command line, a role that was set is kept; where none was set, the loop leaves
    -- none, the sender's or the receiver's. Where the loop returns early, it returns no role or the
    -- observer's.
    pub parse_args-Ends :
        (args : List Octets) (p : Parsing F) → Ends p.role (parse_args stof args p)
    unfolding parse_args
    parse_args-Ends [] p = IsAfter-refl p.role
    parse_args-Ends (arg ∷ []) p = last_arg-Ends (key_of arg) arg p
    parse_args-Ends (arg ∷ value ∷ rest) p =
        read_arg-Ends (key_of arg) arg value (parse_args stof rest) (parse_args stof (value ∷ rest))
          p (parse_args-Ends rest) (parse_args-Ends (value ∷ rest))
