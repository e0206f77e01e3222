-- ===== src/Examples/Processes.antt =====
-- Tests of the process: its command line, its table of tests and its loops.
use bats_protocol_api.Api.Tests
use bats_protocol_api.Transfer.Session
use bats_protocol_api.Test.Handlers.{try_print_summary}
use bats_protocol_api.Prelude.{if◌then◌else◌, leb, ◌&&◌, ◌-◌, ◌*◌, false, true, ◌==◌}
use bats_protocol_api.Prelude.Octets.{Octets, codes, octets_eq, is_empty}
use bats_protocol_api.Prelude.{List, Option, arith, ◌∷◌, ◌≡◌, ℕ, not, [], refl, some, none}
use bats_protocol_api.Api.Arguments.RoundTrip.{
  render_all, AllWritten, key_text, Setting, render, put_int, put_flag, apply_all,
  parse_args-null_pointer, parse_args-render_all, put_real, put_text, put_file,
}
use bats_protocol_api.Api.Arguments.{
  parse_args, real, interval_key, initial, port_key, debug_flag, time_key, interface_key, read_arg,
  last_arg, key_of, letter_of, takes_value, with_value, without_value, choose_role, set_int,
  Parsing, set_text, goes_on,
}
use bats_protocol_api.Api.Process.{
  Host, Api, init_from_args, new_api, after_parsing, open_log_file, parsed, start_as, final_role,
  new_sender, start_as_sender, stop_all, on_signal, has_slash, stop_each, sigint,
}
use bats_protocol_api.Examples.{platform, config, moment, test_of}
use bats_protocol_api.Prelude.Floating.{thousandths}
use bats_protocol_api.Prelude.Numerals.{digits, stoi, skip_spaces, magnitude, digits_from}
use bats_protocol_api.Common.{
  TestRole, role_none, is_receiver_role, is_sender_role, is_supported_protocol, role_file_sender,
  role_receiver,
}
use bats_protocol_api.Prelude.Results.{ok, fault, null_pointer, Result, exception}
use bats_protocol_api.Api.Tests.{id_of, prepare, test_number, Visit, speed_test, file_transfer}
use bats_protocol_api.Api.{any_exists, validate_client_config, validate_files}
use bats_protocol_api.Common.Config.{default_config}
use bats_protocol_api.Prelude.Tables.{insert, keys}
use bats_protocol_api.Transfer.Session.{new_sending, new_session, enqueue}
use bats_protocol_api.Api.Process.Setup.{IsSetUp, init_from_args-IsSetUp}
use bats_protocol_api.Api.Process.LogFile.{init_from_args-bare_log}
use bats_protocol_api.Transfer.{Transfer}
use bats_protocol_api.Api.Process.Stopping.{AllStopped, stop_all_lem, on_signal-again}
use bats_protocol_api.Api.Polling.{is_interrupted}
use bats_protocol_api.Test.{test_start}
use bats_protocol_api.Prelude.Int.{pos}
use bats_protocol_api.Test.Control.{stop_test}

abbrev pub stof : Octets → Option ℕ
stof (c ∷ []) = if leb 48 c && leb c 57 then some ((c - 48) * 1000) else none
stof _ = none

abbrev settings : List (Setting thousandths)
settings =
    put_int port_key 6001
    ∷ put_flag debug_flag
    ∷ put_real time_key (codes "5") 5000
    ∷ put_text interface_key (codes "lo")
    ∷ put_file (codes "a.txt")
    ∷ []

are_written : AllWritten stof settings
are_written = (omega arith, (tt, (refl, (tt, (tt, tt)))))

parse_args-render_all_example :
    parse_args stof (render_all settings (codes "-s" ∷ [])) (initial thousandths)
    ≡ parse_args stof (codes "-s" ∷ []) (apply_all settings (initial thousandths))
parse_args-render_all_example =
    parse_args-render_all stof settings (codes "-s" ∷ []) (initial thousandths) are_written

-- The line that is written: -p 6001 -d -t 5 -I lo -f a.txt -s
written_line : render_all settings (codes "-s" ∷ []) ≡ (
    codes "-p"
    ∷ codes "6001"
    ∷ codes "-d"
    ∷ codes "-t"
    ∷ codes "5"
    ∷ codes "-I"
    ∷ codes "lo"
    ∷ codes "-f"
    ∷ codes "a.txt"
    ∷ codes "-s"
    ∷ [])
unfolding render_all render key_text digits
written_line = refl

parse_args-null_pointer_example :
    parse_args stof (render_all settings (key_text (real interval_key) ∷ [])) (initial thousandths)
    ≡ fault null_pointer
parse_args-null_pointer_example =
    parse_args-null_pointer stof settings interval_key (initial thousandths) are_written

abbrev pub host : Host platform
host = record {
  exists = λ path. octets_eq path (codes "a.txt");
  creates = λ path. not (is_empty path);
  sizes = λ path. some 5;
  interfaces = none;
  stof = stof;
  monotonic = 77;
}

abbrev client_args : List Octets
client_args = codes "-c" ∷ codes "h" ∷ codes "-m" ∷ codes "1" ∷ codes "-f" ∷ codes "a.txt" ∷ []

abbrev client : Api platform × TestRole
unfolding init_from_args parse_args read_arg last_arg key_of letter_of takes_value with_value
    without_value choose_role new_api stoi skip_spaces magnitude digits_from after_parsing
    open_log_file parsed set_int start_as final_role new_sender start_as_sender id_of prepare
    test_number any_exists validate_client_config validate_files default_config is_receiver_role
    is_sender_role is_supported_protocol insert new_sending new_session enqueue
client = elim (init_from_args host client_args (new_api platform)) [
  | ok r ↦ r
  | fault e ↦ (new_api platform, role_none)
]

becomes_client : init_from_args host client_args (new_api platform) ≡ ok (client.0, client.1)
unfolding client init_from_args parse_args read_arg last_arg key_of letter_of takes_value with_value
    without_value choose_role new_api stoi skip_spaces magnitude digits_from after_parsing
    open_log_file parsed set_int start_as final_role new_sender start_as_sender id_of prepare
    test_number any_exists validate_client_config validate_files default_config is_receiver_role
    is_sender_role is_supported_protocol insert new_sending new_session enqueue
becomes_client = refl

init_from_args-IsSetUp_example : IsSetUp host client.1 client.0
init_from_args-IsSetUp_example = init_from_args-IsSetUp host client_args becomes_client

client_role : client.1 ≡ role_file_sender
unfolding client
client_role = refl

-- -l iperf.log, without a directory
abbrev log_args : List Octets
log_args = codes "iperf.log" ∷ codes "-s" ∷ []

abbrev log_parsing : Parsing thousandths
log_parsing = record (initial thousandths) { log_file = codes "iperf.log"; role = role_receiver }

reads_log : parse_args stof (codes "-l" ∷ log_args) (initial thousandths) ≡ ok (goes_on log_parsing)
unfolding parse_args read_arg last_arg key_of letter_of takes_value with_value without_value
    choose_role set_text initial
reads_log = refl

no_slash : has_slash (codes "iperf.log") ≡ false
unfolding has_slash
no_slash = refl

init_from_args-bare_log_example :
    init_from_args host (codes "-l" ∷ log_args) (new_api platform) ≡ fault exception
unfolding initial
init_from_args-bare_log_example =
    init_from_args-bare_log host (codes "-l") log_args refl refl reads_log refl no_slash

abbrev pub visit : Visit platform
visit = record { moment = moment; available = none }

abbrev pub new_file_session : Transfer thousandths
new_file_session = record {
  config = config;
  test_id = 78;
  ctrl_chn = some 4;
  state = test_start;
  has_printer = true;
  is_stopped = false;
  connector = false;
  streams = [];
  pending = [];
  disk = [];
  calls = [];
}

abbrev pub process : Api platform
process = record {
  config = config;
  role = role_receiver;
  interface_name = codes "lo";
  log_file = [];
  bats_log_path = [];
  server_listen_port = pos 5200;
  tests = (77, speed_test (test_of [])) ∷ (78, file_transfer new_file_session) ∷ [];
  is_ctrl_chn_connected = true;
  is_stopped = false;
  stop_signal = 0;
  calls = [];
}

abbrev pub value_or {ℓ} : {A : Type ℓ} → Result A → A → A
value_or (ok a) b = a
value_or (fault e) b = b

abbrev stopped : Api platform
unfolding stop_all stop_each Tests.stop stop_test try_print_summary Session.stop
stopped = value_or (stop_all (λ k. visit) process) process

stops : stop_all (λ k. visit) process ≡ ok stopped
unfolding stopped stop_all stop_each Tests.stop stop_test try_print_summary Session.stop
stops = refl

stop_all_example :
    AllStopped stopped.tests
    × (keys stopped.tests ≡ keys process.tests)
    × (stopped.stop_signal ≡ sigint)
    × (stop_all (λ k. visit) stopped ≡ ok stopped)
stop_all_example = stop_all_lem (λ k. visit) (λ k. visit) process refl stops

abbrev signalled : Api platform
unfolding on_signal stop_all stop_each Tests.stop stop_test try_print_summary Session.stop
signalled = value_or (on_signal 15 (λ k. visit) process) process

serves : on_signal 15 (λ k. visit) process ≡ ok signalled
unfolding signalled on_signal stop_all stop_each Tests.stop stop_test try_print_summary Session.stop
serves = refl

on_signal-again_example :
    (is_interrupted signalled ≡ true)
    × (on_signal 15 (λ k. visit) signalled ≡ ok (record signalled { stop_signal = 15 }))
    × (is_interrupted (record signalled { stop_signal = 15 }) ≡ (15 == sigint))
on_signal-again_example = on_signal-again 15 15 (λ k. visit) (λ k. visit) process refl serves
