-- ===== src/Api/Process/LogFile.antt =====
-- The log file of iperf_bats_api.cc, where InitFromArgs fails.
use bats_protocol_api.Stream.{Platform}
use bats_protocol_api.Api.Process.{
  init_from_args, open_log_file, new_api, parent_path, set_log_paths, Host, parsing_of, Api,
  after_parsing, parsed, has_slash, final_role,
}
use bats_protocol_api.Prelude.{
  [], ◌≡◌, Bool-cases, false, inl, List, inr, refl, arith, ◌∷◌, ap, ◌∙◌,
}
use bats_protocol_api.Api.Arguments.{initial, Parsing, parse_args, goes_on}
use bats_protocol_api.Prelude.Octets.{is_empty, Octets}
use bats_protocol_api.Prelude.Results.{fault, exception, ok}

module _ {P : Platform} where
  set_log_paths-log_file : (a : Api P) → (set_log_paths a).log_file ≡ a.log_file
  unfolding set_log_paths
  set_log_paths-log_file a = elim (Bool-cases (is_empty a.bats_log_path)) [
    | inl e ↦ rw e refl
    | inr e ↦ rw e refl
  ]

  open_log_file-bare :
      (h : Host P) (a : Api P)
      → h.exists [] ≡ false
      → h.creates [] ≡ false
      → is_empty a.log_file ≡ false
      → has_slash a.log_file ≡ false
      → open_log_file h a ≡ fault exception
  unfolding open_log_file parent_path
  open_log_file-bare h a x c n s = ground (arith, x, c)

  -- A log file without a directory ends the process: where std::filesystem finds no file at the
  -- empty path and does not make a directory of it, a command line that is read to its end with such
  -- a log file leads to an uncaught exception.
  pub init_from_args-bare_log :
      (h : Host P) (arg : Octets) (args : List Octets) {p : Parsing P.floating}
      → h.exists [] ≡ false
      → h.creates [] ≡ false
      → parse_args h.stof (arg ∷ args) (initial P.floating) ≡ ok (goes_on p)
      → is_empty p.log_file ≡ false
      → has_slash p.log_file ≡ false
      → init_from_args h (arg ∷ args) (new_api P) ≡ fault exception
  unfolding init_from_args new_api parsing_of initial after_parsing parsed
  init_from_args-bare_log h arg args {p} x c e n s =
      let b : Api P = record (parsed p (new_api P)) { role = final_role p.role p.config.files } in
      let same = set_log_paths-log_file b in
      let failed =
        open_log_file-bare h (set_log_paths b) x c (ap is_empty same ∙ n) (ap has_slash same ∙ s) in
      rw (e, failed) refl
