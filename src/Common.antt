-- ===== src/Common.antt =====
-- example/iperf-bats/iperf_common.h and iperf_common.cc: the roles of a process, the reports of a
-- stream and the configuration of a test. Signed `int` fields are integers; they do not overflow.
pub mod Config
pub mod Address
use bats_protocol_api.Prelude.{ℕ, ◌%◌, Bool, true, false, ◌||◌, ◌==◌}
use bats_protocol_api.Prelude.Int.{ℤ, pos, ◌==ℤ◌, wrap}
use Prim.Native.String.{String}

pub data TestRole : Type 0 where
  role_none role_sender role_receiver role_file_sender role_file_receiver role_observer : TestRole

unfoldable pub is_sender_role : TestRole → Bool
is_sender_role role_sender = true
is_sender_role role_file_sender = true
is_sender_role _ = false

unfoldable pub is_receiver_role : TestRole → Bool
is_receiver_role role_receiver = true
is_receiver_role role_file_receiver = true
is_receiver_role _ = false

unfoldable pub role_string : TestRole → String
role_string role_sender = "BATS sender"
role_string role_receiver = "BATS receiver"
role_string role_file_sender = "BATS file sender"
role_string role_file_receiver = "BATS file receiver"
role_string role_observer = "Observer"
role_string role_none = "unknown"

-- The comparison with the mode's names is made after a conversion to `uint8_t`.
unfoldable pub is_reliable_protocol : ℤ → Bool
is_reliable_protocol protocol =
    wrap 256 protocol == 1 || wrap 256 protocol == 2 || protocol ==ℤ pos 10

unfoldable pub is_supported_protocol : ℤ → Bool
is_supported_protocol protocol = true

pub record TestInterval (Float : Type 0) : Type 0 where
  pub start_seq : ℕ
  pub bytes : ℕ
  pub datagrams : ℕ
  pub lost_datagrams : ℤ
  pub bitrate : Float
  pub jitter : Float
  pub loss : Float

-- `intervals[1]` is the last interval, `intervals[0]` the last snapshot.
pub record TestReport (Float : Type 0) : Type 0 where
  pub last_snapshot_time : ℕ
  pub interval : Float
  pub snapshot_cnt : ℕ
  pub summary : TestInterval Float
  pub last_interval : TestInterval Float
  pub last_snapshot : TestInterval Float

abbrev pub magic_code : ℕ
magic_code = 0xa1b2c3d4a5b6c7d8
