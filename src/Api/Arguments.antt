-- ===== src/Api/Arguments.antt =====
-- example/iperf-bats/iperf_bats_api.cc: the loop over the command line in InitFromArgs. `argv` is a
-- list without the program's name; behind its last text stands a null pointer.
pub mod RoundTrip
pub mod Roles
-- The options with their tables: `int_args_tbl`, `vec_args_tbl` and `str_args_tbl` name members.
use bats_protocol_api.Prelude.{
  ℕ, Bool, ◌++◌, Option, true, if◌then◌else◌, ◌∷◌, false, ◌==◌, List, none, some, [],
}
use bats_protocol_api.Prelude.Octets.{Octets}
use bats_protocol_api.Prelude.Floating.{Floating}
use bats_protocol_api.Common.{TestRole, role_none, role_observer, role_receiver, role_sender}
use bats_protocol_api.Common.Config.{default_config, TestConfig}
use bats_protocol_api.Prelude.Results.{Result, ok, ◌>>=◌, fault, or_fault, exception, null_pointer}
use bats_protocol_api.Prelude.Int.{ℤ}
use bats_protocol_api.Prelude.Numerals.{stoi}

pub data RealKey : Type 0 where
  time_key interval_key : RealKey

pub data Flag : Type 0 where
  debug_flag reverse_flag compression_flag precise_time_flag : Flag

pub data IntKey : Type 0 where
  num_streams_key port_key protocol_key rate_key : IntKey

pub data TextKey : Type 0 where
  interface_key log_file_key bats_log_key : TextKey

pub data Key : Type 0 where
  help server client files_key : Key
  real : RealKey → Key
  flag : Flag → Key
  int : IntKey → Key
  text : TextKey → Key

-- An option has two characters.
unfoldable pub letter_of : ℕ → Option Key
letter_of c =
    if c == b'h'
    then some help
    else if c == b't'
    then some (real time_key)
    else if c == b'i'
    then some (real interval_key)
    else if c == b'd'
    then some (flag debug_flag)
    else if c == b'r'
    then some (flag reverse_flag)
    else if c == b'C'
    then some (flag compression_flag)
    else if c == b'T'
    then some (flag precise_time_flag)
    else if c == b's'
    then some server
    else if c == b'P'
    then some (int num_streams_key)
    else if c == b'p'
    then some (int port_key)
    else if c == b'm'
    then some (int protocol_key)
    else if c == b'b'
    then some (int rate_key)
    else if c == b'f'
    then some files_key
    else if c == b'I'
    then some (text interface_key)
    else if c == b'l'
    then some (text log_file_key)
    else if c == b'L'
    then some (text bats_log_key)
    else if c == b'c'
    then some client
    else none

unfoldable pub key_of : Octets → Option Key
key_of (dash ∷ c ∷ []) = if dash == b'-' then letter_of c else none
key_of _ = none

unfoldable pub takes_value : Key → Bool
takes_value (real _) = true
takes_value (int _) = true
takes_value (text _) = true
takes_value files_key = true
takes_value client = true
takes_value _ = false

-- What the loop writes: `user_input_config`, `test_role_`, the three texts and whether a list is
-- being read (`cur_vec_arg` can only be "-f").
pub record Parsing (F : Floating) : Type 0 where
  pub config : TestConfig F.Float
  pub role : TestRole
  pub interface_name : Octets
  pub log_file : Octets
  pub bats_log_path : Octets
  pub is_reading_vec : Bool

-- The loop goes on, or the function returns.
pub data Outcome (F : Floating) : Type 0 where
  goes_on : Parsing F → Outcome F
  returns : TestRole → Parsing F → Outcome F

abbrev is_none : TestRole → Bool
is_none role_none = true
is_none _ = false

module _ {F : Floating} where
  abbrev pub then_parse : Result (Outcome F) → (Parsing F → Result (Outcome F)) → Result (Outcome F)
  then_parse (fault e) next = fault e
  then_parse (ok (returns r p)) next = ok (returns r p)
  then_parse (ok (goes_on p)) next = next p

  abbrev with_config : TestConfig F.Float → Parsing F → Parsing F
  with_config c p = record p { config = c }

  unfoldable pub set_real : RealKey → F.Float → Parsing F → Parsing F
  set_real time_key x p = with_config (record p.config { time = x }) p
  set_real interval_key x p = with_config (record p.config { interval = x }) p

  unfoldable pub set_flag : Flag → Parsing F → Parsing F
  set_flag debug_flag p = with_config (record p.config { is_debug_mode = true }) p
  set_flag reverse_flag p = with_config (record p.config { is_reverse_enabled = true }) p
  set_flag compression_flag p = with_config (record p.config { is_compression_enabled = true }) p
  set_flag precise_time_flag p = with_config (record p.config { is_precise_time_enabled = true }) p

  unfoldable pub set_int : IntKey → ℤ → Parsing F → Parsing F
  set_int num_streams_key z p = with_config (record p.config { num_streams = z }) p
  set_int port_key z p = with_config (record p.config { port = z }) p
  set_int protocol_key z p = with_config (record p.config { protocol = z }) p
  set_int rate_key z p = with_config (record p.config { max_allowed_sending_rate = z }) p

  unfoldable pub set_text : TextKey → Octets → Parsing F → Parsing F
  set_text interface_key value p = record p { interface_name = value }
  set_text log_file_key value p = record p { log_file = value }
  set_text bats_log_key value p = record p { bats_log_path = value }

  -- The role can be set once.
  unfoldable pub choose_role : TestRole → Parsing F → Outcome F
  choose_role role p =
      if is_none p.role then goes_on (record p { role = role }) else returns role_none p

  abbrev add_file : Octets → Parsing F → Parsing F
  add_file path p = with_config (record p.config { files = p.config.files ++ (path ∷ []) }) p

  -- A text that is no option is one more file, where files are being read.
  unfoldable pub positional : Octets → Parsing F → Result (Outcome F)
  positional arg p =
      if p.is_reading_vec then ok (goes_on (add_file arg p)) else ok (returns role_none p)

  -- An option with nothing behind it. `-t` and `-i` do not ask for a value, and make a text of the
  -- null pointer.
  unfoldable pub without_value : Key → Parsing F → Result (Outcome F)
  without_value help p = ok (returns role_observer p)
  without_value server p = ok (choose_role role_receiver p)
  without_value (flag f) p = ok (goes_on (set_flag f p))
  without_value (real k) p = fault null_pointer
  without_value _ p = ok (returns role_none p)

  -- `stof` is std::stof: none where it throws.
  module _ (stof : Octets → Option F.Float) where
    unfoldable pub with_value : Key → Octets → Parsing F → Result (Outcome F)
    with_value (real k) value p = do
      x ← or_fault (stof value) exception
      ok (goes_on (set_real k x p))
    with_value (int k) value p = do
      z ← or_fault (stoi value) exception
      ok (goes_on (set_int k z p))
    with_value (text k) value p = ok (goes_on (set_text k value p))
    with_value files_key value p =
        ok (goes_on (add_file value (record p { is_reading_vec = true })))
    with_value client value p =
        ok (choose_role role_sender (with_config (record p.config { peer_host = value }) p))
    with_value key value p = without_value key p

    -- One argument with another text behind it: the loop goes on behind the value of the option,
    -- or with that text.
    unfoldable pub read_arg :
        Option Key
        → Octets
        → Octets
        → (Parsing F → Result (Outcome F))
        → (Parsing F → Result (Outcome F))
        → Parsing F
        → Result (Outcome F)
    read_arg none arg value behind next p = then_parse (positional arg p) next
    read_arg (some key) arg value behind next p =
        if takes_value key
        then then_parse (with_value key value p) behind
        else then_parse (without_value key p) next

    unfoldable pub last_arg : Option Key → Octets → Parsing F → Result (Outcome F)
    last_arg none arg p = positional arg p
    last_arg (some key) arg p = without_value key p

    unfoldable pub parse_args : List Octets → Parsing F → Result (Outcome F)
    parse_args [] p = ok (goes_on p)
    parse_args (arg ∷ []) p = last_arg (key_of arg) arg p
    parse_args (arg ∷ value ∷ rest) p =
        read_arg (key_of arg) arg value (parse_args rest) (parse_args (value ∷ rest)) p

unfoldable pub initial : (F : Floating) → Parsing F
initial F = record {
  config = default_config F;
  role = role_none;
  interface_name = [];
  log_file = [];
  bats_log_path = [];
  is_reading_vec = false;
}
