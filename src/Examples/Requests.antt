-- ===== src/Examples/Requests.antt =====
-- Tests of the control channel of a process, of its loops and of a request for files.
use bats_protocol_api.Api.Channel.Table.{IsFor}
use bats_protocol_api.Prelude.{if◌then◌else◌, ltb}
use bats_protocol_api.Prelude.Results.{fault, waiting}
use bats_protocol_api.Transfer.Callbacks.{is_stream_done}
use bats_protocol_api.Api.Tests
use bats_protocol_api.Api.Channel
use bats_protocol_api.Transfer.Session
use bats_protocol_api.Test.Messages.{control_header}
use bats_protocol_api.Transfer.Session.{
  handle_file_transfer_request, send_response, send_message, new_session, data_config,
}
use bats_protocol_api.Api.Tests.{
  ApiTest, test_number, file_transfer, id_of, close_ctrl_channel, prepare, set_role,
}
use bats_protocol_api.Api.Channel.{
  control_channel_connection_callback, channel_ended, received_test, end_test, deliver,
  handle_first, end_found,
}
use bats_protocol_api.Wire.{ControlHeader, decode, encode}
use bats_protocol_api.Api.{recipient}
use bats_protocol_api.Api.Channel.Table.{
  WellKeyed, connection_callback-WellKeyed, handle_control_message-routes,
  handle_control_message-routes,
}
use bats_protocol_api.Api.Polling.{
  max_timeout, Receiving, run_test, PollRound, await_done, receiver_round, poll_tests, age, let_go,
}
use bats_protocol_api.Prelude.{
  List, ℕ, ◌∷◌, inl, length, [], replicate, some, arith, suc, refl, ◌≡◌, zero, ◌++◌, none, true,
  ◌↔◌, ◌⊎◌,
}
use bats_protocol_api.Api.Polling.Releasing.{receiver_rounds, In, receiver_rounds-released}
use bats_protocol_api.Api.Process.{Api}
use bats_protocol_api.Api.Polling.Ending.{
  AllKeep, IsWaited, AllIdle, await_done-ends, with_new, run_test-no_key,
}
use bats_protocol_api.Prelude.Octets.{le_octets, read_le, Octets}
use bats_protocol_api.Examples.{platform, test_of, config}
use bats_protocol_api.Examples.Processes.{host, process, visit, new_file_session, value_or}
use bats_protocol_api.Common.Config.{serialize, hundredths, deserialize, default_config}
use bats_protocol_api.Connection.{connection_closed}
use bats_protocol_api.Common.{role_sender, is_sender_role}
use bats_protocol_api.Prelude.Tables.{find, update, insert, keys}
use bats_protocol_api.Prelude.Results.{ok}
use bats_protocol_api.Prelude.Floating.{thousandths}
use bats_protocol_api.Prelude.Int.{pos}
use bats_protocol_api.Transfer.{Transfer, new_stream}
use bats_protocol_api.Test.{test_start, is_done}
use bats_protocol_api.Transfer.Ending.{is_stream_done-received}

-- A request for a transfer with the number 79, with the configuration of the sender behind it.
abbrev request_header : ControlHeader
request_header = control_header 79 1 0

abbrev request : Octets
unfolding encode le_octets serialize hundredths control_header
request = encode request_header ++ serialize thousandths config

request_decodes : decode request ≡ some request_header
unfolding request decode encode read_le le_octets serialize hundredths control_header
request_decodes = refl

abbrev requested : Api platform
unfolding request Channel.handle_control_message recipient received_test deliver handle_first
    Tests.handle_control_message Session.handle_control_message handle_file_transfer_request
    send_response send_message deserialize id_of test_number insert keys prepare set_role
    new_session decode encode read_le le_octets serialize hundredths control_header default_config
    data_config
requested = value_or (Channel.handle_control_message visit 5 request process) process

handles_request : Channel.handle_control_message visit 5 request process ≡ ok requested
unfolding requested request Channel.handle_control_message recipient received_test deliver
    handle_first Tests.handle_control_message Session.handle_control_message
    handle_file_transfer_request send_response send_message deserialize id_of test_number insert
    keys prepare set_role new_session decode encode read_le le_octets serialize hundredths
    control_header default_config data_config
handles_request = refl

handle_control_message-routes_example :
    ((t : ApiTest platform) × (u : ApiTest platform) × IsFor request_header process t
      × (Tests.handle_control_message visit 5 request t ≡ ok u)
      × (find 79 requested.tests ≡ some u)
      × (test_number u ≡ 79))
    × (find 78 requested.tests ≡ find 78 process.tests)
unfolding control_header
handle_control_message-routes_example =
    handle_control_message-routes visit 5 request process 78 request_decodes handles_request refl

well_keyed : WellKeyed process.tests
unfolding test_number
well_keyed = (refl, (refl, tt))

abbrev after_close : Api platform
unfolding control_channel_connection_callback channel_ended end_test end_found find update
    Tests.stop Session.stop close_ctrl_channel
after_close =
    value_or (control_channel_connection_callback connection_closed visit 4 [] (some 78) process)
      process

closes :
    control_channel_connection_callback connection_closed visit 4 [] (some 78) process
    ≡ ok after_close
unfolding after_close control_channel_connection_callback channel_ended end_test end_found find
    update Tests.stop Session.stop close_ctrl_channel
closes = refl

connection_callback-WellKeyed_example : WellKeyed after_close.tests
connection_callback-WellKeyed_example =
    connection_callback-WellKeyed connection_closed visit 4 [] (some 78) process closes well_keyed

abbrev idle : PollRound platform
idle = record { between = λ a. a; visit = λ k. visit }

abbrev dying_test : ApiTest platform
dying_test = file_transfer new_file_session

abbrev receiving : Receiving platform
receiving = record {
  api = record process { tests = [] };
  dying = (dying_test, 3) ∷ [];
  released = [];
}

abbrev nine : List (PollRound platform)
nine = replicate 9 idle

abbrev received : Receiving platform
unfolding receiver_rounds receiver_round poll_tests age let_go
received = value_or (receiver_rounds nine receiving) receiving

receives : receiver_rounds nine receiving ≡ ok received
unfolding received receiver_rounds receiver_round poll_tests age let_go
receives = refl

receiver_rounds-released_example : In dying_test received.released
unfolding In
receiver_rounds-released_example =
    receiver_rounds-released dying_test 3 nine receiving (inl refl) (omega arith) (omega arith)
      receives

abbrev sender : Api platform
sender = record process { role = role_sender }

two_keep : AllKeep (idle ∷ idle ∷ [])
two_keep = ((λ a h. h), ((λ a h. h), tt))

await_done-ends_example : IsWaited 2 (await_done 2 (idle ∷ idle ∷ []) sender)
await_done-ends_example = await_done-ends 2 (idle ∷ idle ∷ []) sender refl two_keep (omega arith)

all_idle : (n : ℕ) → AllIdle (replicate n idle)
all_idle zero = tt
all_idle (suc n) = ((λ a. refl), all_idle n)

run_test-no_key_example :
    run_test host (λ k. visit) (replicate 10001 idle) (with_new 77 (test_of []) sender) ≡ (
      if ltb max_timeout (length (replicate 10001 idle))
      then ok (with_new 77 (test_of []) sender)
      else fault waiting)
unfolding is_sender_role
run_test-no_key_example =
    run_test-no_key host (λ k. visit) (replicate 10001 idle) 77 (test_of []) sender refl refl refl
      refl (all_idle 10001)

abbrev body : Octets
unfolding serialize hundredths le_octets
body = serialize thousandths config

abbrev asked : Transfer thousandths
asked = record new_file_session { test_id = 79 }

abbrev accepted : Transfer thousandths
unfolding handle_file_transfer_request send_response send_message deserialize encode read_le
    le_octets serialize hundredths control_header default_config data_config
accepted = value_or (handle_file_transfer_request none request_header body asked) asked

accepts : handle_file_transfer_request none request_header body asked ≡ ok accepted
unfolding accepted body handle_file_transfer_request send_response send_message deserialize encode
    read_le le_octets serialize hundredths control_header default_config data_config
accepts = refl

is_stream_done-received_example :
    ((is_stream_done (record accepted {
      config = record accepted.config { num_files = pos 3 };
      streams = new_stream 0 ∷ [];
      state = test_start;
    })).1
      ≡ true)
    ↔ ((length (new_stream 0 ∷ []) ≡ 1)
        ⊎ ((length (new_stream 0 ∷ []) ≡ 0) × (is_done test_start ≡ true)))
is_stream_done-received_example =
    is_stream_done-received none request_header body asked (new_stream 0 ∷ []) test_start (pos 3)
      refl accepts
