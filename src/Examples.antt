-- ===== src/Examples.antt =====
-- Concrete values for the tests of the theorems: a platform whose recorder is the list of what it
-- recorded, a configuration, streams and tests.
mod Format
mod Streams
mod Tests
mod Transfers
mod Clients
mod Processes
mod Requests
use Prim.Native.Nat.{max}
use bats_protocol_api.Prelude.{
  ℕ, List, Bool, true, ◌+◌, ◌∷◌, if◌then◌else◌, [], false, ◌==◌, leb, ltb, some, ◌||◌, ◌&&◌,
  replicate, none,
}
use bats_protocol_api.Stream.{
  TestHeader, Clock, Platform, Sending, IperfStream, conn_connected, stream_start,
}
use bats_protocol_api.Common.Config.{TestConfig}
use bats_protocol_api.Common.{TestReport, TestInterval, magic_code, role_sender, role_receiver}
use bats_protocol_api.Test.{Moment, IperfTest, test_start}
use bats_protocol_api.Prelude.Floating.{thousandths}
use bats_protocol_api.Prelude.Int.{pos}
use bats_protocol_api.Stream.Header.{iperf_char}

abbrev pub has : List ℕ → ℕ → Bool
has [] j = false
has (i ∷ is) j = i == j || has is j

abbrev pub highest : List ℕ → ℕ
highest [] = 0
highest (i ∷ is) = max i (highest is)

abbrev pub count_in : List ℕ → ℕ → ℕ → ℕ
count_in [] from to = 0
count_in (i ∷ is) from to = (if leb from i && leb i to then 1 else 0) + count_in is from to

abbrev pub platform : Platform
platform = record {
  floating = thousandths;
  Recorder = List ℕ;
  reset = λ r. [];
  record_seq = λ r i. i ∷ r;
  has = has;
  max_seq = highest;
  recorded_num_in_range = count_in;
  is_less_than_in_half_ring = λ a b. ltb a b;
}

abbrev pub config : TestConfig ℕ
config = record {
  interval = 1000;
  time = 10000;
  resolution = 1000;
  num_streams = pos 2;
  protocol = pos 10;
  is_reverse_enabled = false;
  is_compression_enabled = false;
  is_debug_mode = false;
  is_precise_time_enabled = false;
  port = pos 5201;
  max_allowed_sending_rate = pos 0;
  peer_host = 49 ∷ [];
  files = [];
  total_bytes_in_files = 0;
  num_files = pos 0;
  role = role_sender;
}

abbrev pub interval : TestInterval ℕ
interval = record {
  start_seq = 0;
  bytes = 4096;
  datagrams = 2;
  lost_datagrams = pos 0;
  bitrate = 8000;
  jitter = 0;
  loss = 0;
}

abbrev pub report : TestReport ℕ
report = record {
  last_snapshot_time = 0;
  interval = 1000;
  snapshot_cnt = 0;
  summary = interval;
  last_interval = interval;
  last_snapshot = record interval { bytes = 1024; datagrams = 1 };
}

abbrev pub header : TestHeader
header = record {
  magic = magic_code;
  stream_identifier = 7;
  seq = 3;
  time = 1000;
  grp_id = 1;
  last = 0;
  ack = 1;
  has_interval = 1;
  reserved = 5;
  interval_id = 9;
}

-- A stream with an identifier and a buffer of 80 octets, of which it sends 76.
abbrev pub stream_with : ℕ → IperfStream platform
stream_with identifier = record {
  config = config;
  stream_identifier = identifier;
  is_sum_printed = false;
  is_sum_received = false;
  is_fin_received = false;
  is_fin_acked = false;
  is_writable = true;
  has_err_in_send = false;
  is_stopped = false;
  conn_state = conn_connected;
  state = stream_start;
  connector = true;
  connect_retry_cnt = 0;
  stream_id = 1;
  sender_report = report;
  receiver_report = report;
  data_conn = some 4;
  header = header;
  body = replicate 40 iperf_char;
  ideal_length = 76;
  last_grp_id = none;
  seq_of_last_changed_grp_id = 0;
  recorder = [];
  diffs = [];
  is_first_jitter_calculation = true;
  calls = [];
}

abbrev pub clock : Clock
clock = record { monotonic = 5; wall = 2000 }

abbrev pub sending : Sending
sending = record { at_once = true; polls = [] }

abbrev pub moment : Moment platform
moment = record { time = λ i. 100 + i; recorder = []; next_id = 1 }

abbrev pub test_of : List (IperfStream platform) → IperfTest platform
test_of streams = record {
  config = record config { role = role_receiver };
  test_id = 77;
  ctrl_chn = some 3;
  state = test_start;
  has_printer = true;
  is_stopped = false;
  is_ready_received = false;
  streams = streams;
  passed_ticks = 0;
  released = [];
  calls = [];
}
