-- ===== src/Api.antt =====
-- example/iperf-bats/iperf_bats_api.cc: the validation of a configuration, and the choice of the
-- test for a control message (HandleControlMessage).
pub mod Validation
pub mod Arguments
pub mod Tests
pub mod Process
pub mod Channel
pub mod Polling
-- Whether one of the paths is there.
use bats_protocol_api.Prelude.{
  List, ℕ, Bool, not, if◌then◌else◌, true, false, ◌∷◌, ◌&&◌, ◌||◌, ◌==◌, leb, [], length, ◌^◌,
}
use bats_protocol_api.Prelude.Octets.{Octets, is_empty}
use bats_protocol_api.Common.{TestRole, role_file_sender, is_supported_protocol}
use bats_protocol_api.Prelude.Floating.{Floating}
use bats_protocol_api.Common.Config.{TestConfig}
use bats_protocol_api.Wire.{ControlHeader}
use bats_protocol_api.Prelude.Int.{◌==ℤ◌, pos, ltb_ℤ, wrap}
use bats_protocol_api.Prelude.Results.{Result, ok, fault, null_pointer}

unfoldable pub any_exists : (Octets → Bool) → List Octets → Bool
any_exists exists [] = false
any_exists exists (path ∷ paths) = exists path || any_exists exists paths

abbrev is_file_sender : TestRole → Bool
is_file_sender role_file_sender = true
is_file_sender _ = false

-- The three tests for a sender of files. The number of streams is an int that is converted to
-- size_t.
unfoldable pub validate_files : (F : Floating) → (Octets → Bool) → TestConfig F.Float → Bool
validate_files F exists c =
    (c.protocol ==ℤ pos 1 || c.protocol ==ℤ pos 2)
    && leb (length c.files) 10
    && any_exists exists c.files
    && leb (wrap (2 ^ 64) c.num_streams) (length c.files)

unfoldable pub validate_client_config : (F : Floating) → (Octets → Bool) → TestConfig F.Float → Bool
validate_client_config F exists c =
    if is_empty c.peer_host
    then false
    else if not (is_supported_protocol c.protocol)
    then false
    else if is_file_sender c.role
    then validate_files F exists c
    else true

-- `address` is what ReadIPAddress answers for the interface.
unfoldable pub validate_server_config : (F : Floating) → Octets → Octets → TestConfig F.Float → Bool
validate_server_config F interface_name address c =
    not (is_empty interface_name)
    && not (is_empty address)
    && is_supported_protocol c.protocol
    && is_empty c.files
    && not (ltb_ℤ (pos 0) c.max_allowed_sending_rate)

-- What a control message is given to: a new file transfer, a new speed test, or a test that is
-- there. A message for an unknown test with another action is handled through a null pointer.
pub data Recipient : Type 0 where
  new_transfer new_speed_test known_test : Recipient

abbrev pub mem : ℕ → List ℕ → Bool
mem n [] = false
mem n (k ∷ ks) = n == k || mem n ks

unfoldable pub recipient : List ℕ → ControlHeader → Result Recipient
recipient tests header =
    if mem header.test_id tests
    then ok known_test
    else if header.action_code == 1
    then ok new_transfer
    else if header.action_code == 2
    then ok new_speed_test
    else fault null_pointer
