-- ===== src/Examples/Tests.antt =====
-- Tests of a speed test: its messages, the summary, and how it ends.
use bats_protocol_api.Prelude.{
  if◌then◌else◌, ◌≡◌, List, true, ◌↔◌, ◌∷◌, [], refl, ◌⊎◌, arith, length, leb, false,
}
use bats_protocol_api.Test.Messages.{
  send_test_summary, control_header, send_ack, send_message, send_test_ready,
}
use bats_protocol_api.Test.Exchange.{Absent, settle_all, Paired, paired_cons, paired_nil}
use bats_protocol_api.Test.{
  IperfTest, test_start, test_done, note, send_control, test_exchange_reports, test_none,
}
use bats_protocol_api.Wire.{encode, decode}
use bats_protocol_api.Test.Machine.{
  messages, Incoming, messages-done, messages-next_states, next_states,
}
use bats_protocol_api.Test.Status.{is_stream_done, is_stream_ready, is_connected, has_done}
use bats_protocol_api.Stream.{IperfStream}
use bats_protocol_api.Examples.{test_of, platform, moment, stream_with, config}
use bats_protocol_api.Test.Handlers.{
  handle_control_message, handle_action, handle_ack_message, ack_in, heard_on, try_print_summary,
  handle_test_parameters, with_parameters,
}
use bats_protocol_api.Prelude.Octets.{le_octets, Octets, read_le}
use bats_protocol_api.Test.Summary.{
  summary_message, handle_control_message-summary, send_test_summary_lem,
}
use bats_protocol_api.Prelude.Results.{ok, fault, out_of_bounds}
use bats_protocol_api.Test.Ending.{Every, is_stream_done_iff, is_stream_ready_iff}
use bats_protocol_api.Prelude.Int.{pos}
use bats_protocol_api.Common.{is_reliable_protocol, role_receiver}
use bats_protocol_api.Test.Stopping.{AllRunning, AllEnded, stop_test_lem}
use bats_protocol_api.Test.Control.{stop_test, accept_stream}
use bats_protocol_api.Stream.Control.{
  new_accepted, switch_data_block_length, start_recv, buffer_size, filling,
}
use bats_protocol_api.Test.Handshake.{
  ready_message, accept_stream-ready, handle_test_parameters-num_streams,
}
use bats_protocol_api.Common.Config.{serialize, deserialize, hundredths}
use bats_protocol_api.Prelude.Floating.{thousandths}

abbrev three : List (IperfStream platform)
three = stream_with 7 ∷ stream_with 8 ∷ stream_with 9 ∷ []

abbrev two : List (IperfStream platform)
two = stream_with 7 ∷ stream_with 8 ∷ []

send_test_summary_example : send_test_summary (test_of two) ≡ (
    if leb 2 33
    then ok (record (note (send_control (summary_message (test_of two))) (test_of two)) {
      state = test_exchange_reports;
    })
    else fault out_of_bounds)
send_test_summary_example = send_test_summary_lem (test_of two) 3 refl refl

matched : Paired two three
unfolding Absent
matched =
    paired_cons refl (omega arith) (omega arith) (omega arith) (refl, (refl, tt))
      (paired_cons refl (omega arith) (omega arith) (omega arith) (refl, tt) paired_nil)

reliable : is_reliable_protocol (test_of three).config.protocol ≡ true
unfolding is_reliable_protocol
reliable = refl

handle_summary_example :
    (r : IperfTest platform) × (handle_control_message moment 9
        (summary_message (test_of two))
        (test_of three)
      ≡ ok r)
    × ((r.streams ≡ settle_all true moment.time 0 two three) × (r.state ≡ test_done))
handle_summary_example =
    handle_control_message-summary moment 9 (test_of two) (test_of three) (omega arith)
      (omega arith) refl refl refl reliable matched

-- An acknowledgement, which a started receiver takes without a change.
acknowledgement : Octets
unfolding encode control_header le_octets
acknowledgement = encode (control_header 77 4 0)

abbrev incoming : Incoming platform
incoming = record { moment = moment; conn = 3; message = acknowledgement }

takes_ack : messages (incoming ∷ []) (test_of two) ≡ ok (test_of two)
unfolding messages handle_control_message handle_action handle_ack_message ack_in heard_on decode
    read_le acknowledgement
takes_ack = refl

messages-next_states_example : test_start ≡ next_states (incoming ∷ []) test_start
messages-next_states_example =
    messages-next_states (incoming ∷ []) (test_of two) {u = test_of two} takes_ack

abbrev ended : IperfTest platform
ended = record (test_of two) { state = test_done }

rests : messages (incoming ∷ []) ended ≡ ok ended
unfolding messages handle_control_message handle_action handle_ack_message ack_in heard_on decode
    read_le acknowledgement
rests = refl

messages-done_example :
    (ended.state ≡ test_done) × ((ended.streams ≡ ended.streams) × (ended.calls ≡ ended.calls))
messages-done_example = messages-done (incoming ∷ []) ended {u = ended} refl rests

is_stream_done_example :
    (is_stream_done (test_of two) ≡ true)
    ↔ ((two ≡ []) ⊎ (Every has_done two × (pos 2 ≡ pos (length two))))
is_stream_done_example = is_stream_done_iff (test_of two)

is_stream_ready_example :
    ((is_stream_ready (test_of two)).1 ≡ true)
    ↔ (Every is_connected two × (pos 2 ≡ pos (length two)))
is_stream_ready_example = is_stream_ready_iff (test_of two)

running : AllRunning two
unfolding AllRunning
running = (refl, (refl, tt))

stopped_two : IperfTest platform
unfolding stop_test try_print_summary
stopped_two = elim (stop_test moment (test_of two)) [ ok r ↦ r.0 | fault e ↦ test_of two ]

stops_two : stop_test moment (test_of two) ≡ ok (stopped_two, true)
unfolding stopped_two stop_test try_print_summary
stops_two = refl

stop_test_example :
    (stopped_two.state ≡ test_done)
    × (stopped_two.streams ≡ [])
    × AllEnded stopped_two.released
    × (stop_test moment stopped_two ≡ ok (stopped_two, false))
stop_test_example =
    stop_test_lem moment moment (test_of two) {u = stopped_two} {first = true} refl running
      stops_two

abbrev waiting_test : IperfTest platform
waiting_test = record (test_of []) {
  config = record config { num_streams = pos 1; role = role_receiver };
}

accepted : (u : IperfTest platform) × (accept_stream moment 4 100 waiting_test ≡ ok u)
unfolding accept_stream new_accepted switch_data_block_length start_recv send_test_ready
    send_message buffer_size filling
accepted = (_, refl)

accept_stream_example :
    accepted.0.calls ≡ (if true then send_control (ready_message waiting_test) ∷ [] else [])
accept_stream_example =
    accept_stream-ready moment 4 100 3 waiting_test {u = accepted.0} refl refl refl accepted.1

parameters : Octets
unfolding serialize
parameters = serialize thousandths config

configured : IperfTest platform
configured = elim (handle_test_parameters parameters (record (test_of []) { state = test_none })) [
  | ok t ↦ t
  | fault e ↦ test_of []
]

takes_parameters :
    handle_test_parameters parameters (record (test_of []) { state = test_none }) ≡ ok configured
unfolding with_parameters configured handle_test_parameters parameters deserialize read_le le_octets
    hundredths send_ack send_message
takes_parameters = refl

handle_test_parameters_example :
    (configured.config.num_streams ≡ pos 1) × (configured.config.role ≡ role_receiver)
handle_test_parameters_example =
    handle_test_parameters-num_streams parameters (record (test_of []) { state = test_none })
      {u = configured} refl takes_parameters
