-- ===== src/Api/Arguments/RoundTrip.antt =====
-- Command lines that are written for a list of settings, and how the loop reads them.

use bats_protocol_api.Api.Arguments.{
  key_of, Key, letter_of, Parsing, Flag, RealKey, set_flag, IntKey, flag, TextKey, int, takes_value,
  real, parse_args, text, set_int, interface_key, time_key, without_value, num_streams_key,
  debug_flag, help, port_key, server, reverse_flag, with_value, set_text, log_file_key, goes_on,
  files_key, client, compression_flag, protocol_key, interval_key, set_real, precise_time_flag,
  rate_key, bats_log_key, last_arg, read_arg,
}
use bats_protocol_api.Prelude.Floating.{Floating}
use bats_protocol_api.Prelude.Octets.{Octets, codes}
use bats_protocol_api.Prelude.{
  List, ◌≡◌, Option, ◌∷◌, ℕ, some, ◌<◌, true, ◌^◌, false, [], ◌∙◌, ◌+◌, refl, ◌++◌, ap,
}
use bats_protocol_api.Prelude.Numerals.{digits, stoi-digits_nil}
use bats_protocol_api.Prelude.Int.{pos}
use bats_protocol_api.Prelude.Results.{ok, fault, null_pointer}

unfoldable pub key_text : Key → Octets
key_text help = codes "-h"
key_text server = codes "-s"
key_text client = codes "-c"
key_text files_key = codes "-f"
key_text (real time_key) = codes "-t"
key_text (real interval_key) = codes "-i"
key_text (flag debug_flag) = codes "-d"
key_text (flag reverse_flag) = codes "-r"
key_text (flag compression_flag) = codes "-C"
key_text (flag precise_time_flag) = codes "-T"
key_text (int num_streams_key) = codes "-P"
key_text (int port_key) = codes "-p"
key_text (int protocol_key) = codes "-m"
key_text (int rate_key) = codes "-b"
key_text (text interface_key) = codes "-I"
key_text (text log_file_key) = codes "-l"
key_text (text bats_log_key) = codes "-L"

key_of-real : (k : RealKey) → key_of (key_text (real k)) ≡ some (real k)
unfolding key_of letter_of key_text
key_of-real time_key = refl
key_of-real interval_key = refl

key_of-flag : (k : Flag) → key_of (key_text (flag k)) ≡ some (flag k)
unfolding key_of letter_of key_text
key_of-flag debug_flag = refl
key_of-flag reverse_flag = refl
key_of-flag compression_flag = refl
key_of-flag precise_time_flag = refl

key_of-int : (k : IntKey) → key_of (key_text (int k)) ≡ some (int k)
unfolding key_of letter_of key_text
key_of-int num_streams_key = refl
key_of-int port_key = refl
key_of-int protocol_key = refl
key_of-int rate_key = refl

key_of-text : (k : TextKey) → key_of (key_text (text k)) ≡ some (text k)
unfolding key_of letter_of key_text
key_of-text interface_key = refl
key_of-text log_file_key = refl
key_of-text bats_log_key = refl

-- Each option is read as itself.
pub key_of-key_text : (k : Key) → key_of (key_text k) ≡ some k
unfolding key_of letter_of key_text
key_of-key_text help = refl
key_of-key_text server = refl
key_of-key_text client = refl
key_of-key_text files_key = refl
key_of-key_text (real k) = key_of-real k
key_of-key_text (flag k) = key_of-flag k
key_of-key_text (int k) = key_of-int k
key_of-key_text (text k) = key_of-text k

-- One setting: an option that is neither a role nor a request for help, with its value. The text of
-- a number with a fraction stands beside the number.
pub data Setting (F : Floating) : Type 0 where
  put_flag : Flag → Setting F
  put_int : IntKey → ℕ → Setting F
  put_text : TextKey → Octets → Setting F
  put_file : Octets → Setting F
  put_real : RealKey → Octets → F.Float → Setting F

module _ {F : Floating} where
  unfoldable pub render : Setting F → List Octets → List Octets
  render (put_flag k) rest = key_text (flag k) ∷ rest
  render (put_int k n) rest = key_text (int k) ∷ digits (n + 1) n [] ∷ rest
  render (put_text k value) rest = key_text (text k) ∷ value ∷ rest
  render (put_file path) rest = key_text files_key ∷ path ∷ rest
  render (put_real k value x) rest = key_text (real k) ∷ value ∷ rest

  unfoldable pub render_all : List (Setting F) → List Octets → List Octets
  render_all [] rest = rest
  render_all (s ∷ settings) rest = render s (render_all settings rest)

  -- What a setting means: the member that its option stands for, as the usage of the program says.
  unfoldable pub apply : Setting F → Parsing F → Parsing F
  apply (put_flag debug_flag) p = record p { config = record p.config { is_debug_mode = true } }
  apply (put_flag reverse_flag) p = record p {
    config = record p.config { is_reverse_enabled = true };
  }
  apply (put_flag compression_flag) p = record p {
    config = record p.config { is_compression_enabled = true };
  }
  apply (put_flag precise_time_flag) p = record p {
    config = record p.config { is_precise_time_enabled = true };
  }
  apply (put_int num_streams_key n) p = record p {
    config = record p.config { num_streams = pos n };
  }
  apply (put_int port_key n) p = record p { config = record p.config { port = pos n } }
  apply (put_int protocol_key n) p = record p { config = record p.config { protocol = pos n } }
  apply (put_int rate_key n) p = record p {
    config = record p.config { max_allowed_sending_rate = pos n };
  }
  apply (put_text interface_key value) p = record p { interface_name = value }
  apply (put_text log_file_key value) p = record p { log_file = value }
  apply (put_text bats_log_key value) p = record p { bats_log_path = value }
  apply (put_file path) p = record p {
    config = record p.config { files = p.config.files ++ (path ∷ []) };
    is_reading_vec = true;
  }
  apply (put_real time_key value x) p = record p { config = record p.config { time = x } }
  apply (put_real interval_key value x) p = record p { config = record p.config { interval = x } }

  unfoldable pub apply_all : List (Setting F) → Parsing F → Parsing F
  apply_all [] p = p
  apply_all (s ∷ settings) p = apply_all settings (apply s p)

  module _ (stof : Octets → Option F.Float) where
    -- Numbers are in the range of `int`, and std::stof reads a text as the number beside it.
    abbrev pub IsWritten : Setting F → Type 0
    IsWritten (put_int k n) = n < 2 ^ 31
    IsWritten (put_real k value x) = stof value ≡ some x
    IsWritten _ = Unit

    abbrev pub AllWritten : List (Setting F) → Type 0
    AllWritten [] = Unit
    AllWritten (s ∷ settings) = IsWritten s × AllWritten settings

    parse_alone :
        (k : Key) (rest : List Octets) (p q : Parsing F)
        → takes_value k ≡ false
        → without_value k p ≡ ok (goes_on q)
        → parse_args stof (key_text k ∷ rest) p ≡ parse_args stof rest q
    unfolding parse_args read_arg last_arg
    parse_alone k [] p q h e = rw (key_of-key_text k) e
    parse_alone k (value ∷ rest) p q h e = rw (key_of-key_text k, h, e) refl

    parse_valued :
        (k : Key) (value : Octets) (rest : List Octets) (p q : Parsing F)
        → takes_value k ≡ true
        → with_value stof k value p ≡ ok (goes_on q)
        → parse_args stof (key_text k ∷ value ∷ rest) p ≡ parse_args stof rest q
    unfolding parse_args read_arg
    parse_valued k value rest p q h e = rw (key_of-key_text k, h, e) refl

    apply-flag : (k : Flag) (p : Parsing F) → set_flag k p ≡ apply (put_flag k) p
    unfolding set_flag apply
    apply-flag debug_flag p = refl
    apply-flag reverse_flag p = refl
    apply-flag compression_flag p = refl
    apply-flag precise_time_flag p = refl

    apply-int : (k : IntKey) (n : ℕ) (p : Parsing F) → set_int k (pos n) p ≡ apply (put_int k n) p
    unfolding set_int apply
    apply-int num_streams_key n p = refl
    apply-int port_key n p = refl
    apply-int protocol_key n p = refl
    apply-int rate_key n p = refl

    apply-text :
        (k : TextKey) (value : Octets) (p : Parsing F)
        → set_text k value p ≡ apply (put_text k value) p
    unfolding set_text apply
    apply-text interface_key value p = refl
    apply-text log_file_key value p = refl
    apply-text bats_log_key value p = refl

    apply-real :
        (k : RealKey) (value : Octets) (x : F.Float) (p : Parsing F)
        → set_real k x p ≡ apply (put_real k value x) p
    unfolding set_real apply
    apply-real time_key value x p = refl
    apply-real interval_key value x p = refl

    parse_args-render :
        (s : Setting F) (rest : List Octets) (p : Parsing F)
        → IsWritten s
        → parse_args stof (render s rest) p ≡ parse_args stof rest (apply s p)
    unfolding render apply takes_value without_value with_value
    parse_args-render (put_flag k) rest p w =
        parse_alone (flag k) rest p _ refl refl ∙ ap (parse_args stof rest) (apply-flag k p)
    parse_args-render (put_int k n) rest p w =
        parse_valued (int k) _ rest p _ refl (rw (stoi-digits_nil n w) refl)
        ∙ ap (parse_args stof rest) (apply-int k n p)
    parse_args-render (put_text k value) rest p w =
        parse_valued (text k) value rest p _ refl refl
        ∙ ap (parse_args stof rest) (apply-text k value p)
    parse_args-render (put_file path) rest p w = parse_valued files_key path rest p _ refl refl
    parse_args-render (put_real k value x) rest p w =
        parse_valued (real k) value rest p _ refl (rw w refl)
        ∙ ap (parse_args stof rest) (apply-real k value x p)

    -- A command line may begin with any settings (options but -h, -s and -c, with integers below
    -- 2^31 in decimal digits and numbers that std::stof reads): the loop writes each to the member
    -- that its option stands for, in their order, and goes on with the rest of the line. A file comes
    -- behind those that are there, and more may follow it; nothing else is written.
    pub parse_args-render_all :
        (settings : List (Setting F)) (rest : List Octets) (p : Parsing F)
        → AllWritten settings
        → parse_args stof (render_all settings rest) p ≡ parse_args stof rest (apply_all settings p)
    unfolding render_all apply_all
    parse_args-render_all [] rest p w = refl
    parse_args-render_all (s ∷ settings) rest p w =
        parse_args-render s (render_all settings rest) p w.0
        ∙ parse_args-render_all settings rest (apply s p) w.1

    -- Behind any settings, the option -t or -i at the end of the line ends the process: the null
    -- pointer behind the arguments is made a text.
    pub parse_args-null_pointer :
        (settings : List (Setting F)) (k : RealKey) (p : Parsing F)
        → AllWritten settings
        → parse_args stof (render_all settings (key_text (real k) ∷ [])) p ≡ fault null_pointer
    unfolding parse_args last_arg without_value
    parse_args-null_pointer settings k p w =
        parse_args-render_all settings (key_text (real k) ∷ []) p w
        ∙ rw (key_of-key_text (real k)) refl
