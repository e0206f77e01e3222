-- ===== src/Api/Process.antt =====
-- example/iperf-bats/iperf_bats_api.h and iperf_bats_api.cc: class IperfBatsApi, its constructor,
-- InitFromArgs and StopAll.
pub mod Setup
pub mod LogFile
pub mod Stopping
use bats_protocol_api.Api.Tests
use bats_protocol_api.Test.Control.{new_test}
use bats_protocol_api.Stream.{Platform, Float}
use bats_protocol_api.Prelude.Octets.{Octets, is_empty}
use bats_protocol_api.Prelude.{
  ℕ, List, if◌then◌else◌, Bool, ◌∷◌, ◌==◌, not, false, Option, ◌&&◌, [], ◌||◌, true, assert,
}
use bats_protocol_api.Api.Tests.{
  set_role, Visit, ApiTest, file_transfer, id_of, speed_test, prepare,
}
use bats_protocol_api.Prelude.Int.{ℤ, pos, ◌-ℤ◌}
use bats_protocol_api.Common.Config.{default_config, TestConfig}
use bats_protocol_api.Prelude.Results.{Result, ok, ◌>>◌, ◌>>=◌, require, exception}
use bats_protocol_api.Api.Arguments.{Outcome, Parsing, returns, goes_on, parse_args}
use bats_protocol_api.Common.{
  TestRole, role_file_sender, is_receiver_role, role_none, role_sender, is_sender_role,
}
use bats_protocol_api.Transfer.Session.{Sizes, new_sending}
use bats_protocol_api.Common.Address.{read_ip_address, Interface}
use bats_protocol_api.Api.{validate_client_config, validate_server_config}
use bats_protocol_api.Prelude.Tables.{insert}

-- What the process finds outside: the files, the network interfaces, std::stof and the clock.
pub record Host (P : Platform) : Type 0 where
  pub exists : Octets → Bool
  -- whether std_fs::create_directories comes back, and does not throw
  pub creates : Octets → Bool
  pub sizes : Sizes
  pub interfaces : Option (List Interface)
  pub stof : Octets → Option (Float P)
  pub monotonic : ℕ

pub data ApiAction : Type 0 where
  set_log_path : Octets → ApiAction
  create_directories : Octets → ApiAction
  open_log : Octets → ApiAction
  start_listen : Octets → ℤ → ApiAction
  -- the callback of a control connection, with the number of a test as its context
  set_callback : ℕ → Option ℕ → ApiAction
  print_receiver_info : ApiAction
  print_receiver_failure : ApiAction

-- `tests` is `test_tbl_`; `stop_signal` is the static `stop_signal_value`.
pub record Api (P : Platform) : Type 0 where
  pub config : TestConfig (Float P)
  pub role : TestRole
  pub interface_name : Octets
  pub log_file : Octets
  pub bats_log_path : Octets
  pub server_listen_port : ℤ
  pub tests : List (ℕ × ApiTest P)
  pub is_ctrl_chn_connected : Bool
  pub is_stopped : Bool
  pub stop_signal : ℕ
  pub calls : List ApiAction

abbrev pub sigint : ℕ
sigint = 2

abbrev pub default_resolution : ℕ
default_resolution = 10

unfoldable pub new_api : (P : Platform) → Api P
new_api P = record {
  config = default_config P.floating;
  role = role_none;
  interface_name = [];
  log_file = [];
  bats_log_path = [];
  server_listen_port = pos 0;
  tests = [];
  is_ctrl_chn_connected = false;
  is_stopped = false;
  stop_signal = 0;
  calls = [];
}

-- std::filesystem::path::parent_path: what stands before the last slash, without the slashes at its
-- end; the root is its own parent.
unfoldable pub has_slash : Octets → Bool
has_slash [] = false
has_slash (c ∷ cs) = c == b'/' || has_slash cs

after_slashes : Octets → Octets
after_slashes [] = []
after_slashes (c ∷ cs) = if c == b'/' then after_slashes cs else c ∷ cs

-- What stands in front of the slashes that the last component follows.
unfoldable pub directory : Octets → Octets
unfolding after_slashes
directory [] = []
directory (c ∷ cs) =
    if c == b'/' && not (has_slash (after_slashes cs)) then [] else c ∷ directory cs

unfoldable pub parent_path : Octets → Octets
parent_path path =
    if not (has_slash path)
    then []
    else if is_empty (directory path)
    then b'/' ∷ []
    else directory path

-- A sender of files is a sender with a list of files.
unfoldable pub final_role : TestRole → List Octets → TestRole
final_role role_sender (path ∷ paths) = role_file_sender
final_role role paths = role

module _ {P : Platform} where
  abbrev pub note : ApiAction → Api P → Api P
  note action a = record a { calls = action ∷ a.calls }

  -- Stop of each test, with what each finds outside.
  unfoldable pub stop_each : (ℕ → Visit P) → List (ℕ × ApiTest P) → Result (List (ℕ × ApiTest P))
  stop_each v [] = ok []
  stop_each v ((k, t) ∷ tests) = do
    u ← Tests.stop (v k) t
    others ← stop_each v tests
    ok ((k, u) ∷ others)

  unfoldable pub stop_all : (ℕ → Visit P) → Api P → Result (Api P)
  stop_all v a = if a.is_stopped then ok a else (do
    tests ← stop_each v a.tests
    ok (record a { is_stopped = true; stop_signal = sigint; tests = tests }))

  -- The signal callback.
  unfoldable pub on_signal : ℕ → (ℕ → Visit P) → Api P → Result (Api P)
  on_signal sig v a = stop_all v (record a { stop_signal = sig })

  -- The log file is opened, its directory made where it is missing.
  unfoldable pub open_log_file : Host P → Api P → Result (Api P)
  open_log_file h a =
      let parent = parent_path a.log_file in
      if is_empty a.log_file
      then ok a
      else if h.exists parent
      then ok (note (open_log a.log_file) a)
      else (do
        require (h.creates parent) exception
        ok (note (open_log a.log_file) (note (create_directories parent) a)))

  -- The members as the loop over the arguments leaves them.
  unfoldable pub parsed : Parsing P.floating → Api P → Api P
  parsed p a = record a {
    config = p.config;
    role = p.role;
    interface_name = p.interface_name;
    log_file = p.log_file;
    bats_log_path = p.bats_log_path;
  }

  set_log_paths : Api P → Api P
  set_log_paths a = if is_empty a.bats_log_path then a else note (set_log_path a.bats_log_path) a

  -- The test of a sender: a speed test or a file transfer.
  unfoldable pub new_sender : Host P → Api P → ApiTest P
  new_sender h a =
      let t : ApiTest P = elim a.role [
        | role_file_sender ↦ file_transfer (new_sending h.sizes h.monotonic a.config)
        | _ ↦ speed_test (new_test h.monotonic a.config)
      ] in
      prepare default_resolution t

  unfoldable pub start_as_sender : Host P → Api P → Result (Api P × TestRole)
  start_as_sender h a =
      if not (validate_client_config P.floating h.exists a.config) then ok (a, role_none) else (do
        i ← id_of (new_sender h a)
        ok (record a { tests = insert i (new_sender h a) a.tests }, a.role))

  unfoldable pub start_as_receiver : Host P → Api P → Result (Api P × TestRole)
  start_as_receiver h a =
      let address = read_ip_address h.interfaces a.interface_name in
      ok (
        if validate_server_config P.floating a.interface_name address a.config
        then (record a { server_listen_port = a.config.port -ℤ pos 1 }, a.role)
        else (a, role_none))

  unfoldable pub start_as : Host P → Api P → Result (Api P × TestRole)
  start_as h a =
      if is_receiver_role a.role
      then start_as_receiver h a
      else if is_sender_role a.role
      then start_as_sender h a
      else ok (a, role_none)

  -- What InitFromArgs does behind the loop.
  unfoldable pub after_parsing : Host P → Api P → Outcome P.floating → Result (Api P × TestRole)
  unfolding set_log_paths
  after_parsing h a (returns r p) = ok (parsed p a, r)
  after_parsing h a (goes_on p) = do
    let role = final_role p.role p.config.files
    let b = set_log_paths (record (parsed p a) { role = role })
    c ← open_log_file h b
    start_as h (record c { config = record c.config { role = role } })

  parsing_of : Api P → Parsing P.floating
  parsing_of a = record {
    config = a.config;
    role = a.role;
    interface_name = a.interface_name;
    log_file = a.log_file;
    bats_log_path = a.bats_log_path;
    is_reading_vec = false;
  }

  -- The arguments behind the program's name.
  unfoldable pub init_from_args : Host P → List Octets → Api P → Result (Api P × TestRole)
  unfolding parsing_of
  init_from_args h [] a = ok (a, role_none)
  init_from_args h (arg ∷ args) a = do
    outcome ← parse_args h.stof (arg ∷ args) (parsing_of a)
    after_parsing h a outcome
