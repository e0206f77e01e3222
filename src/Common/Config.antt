-- ===== src/Common/Config.antt =====
-- example/iperf-bats/iperf_common.h: class TestConfig with its two serialisers.
pub mod Laws
use bats_protocol_api.Prelude.{
  ℕ, ◌%◌, ◌^◌, ◌≡◌, Bool, true, false, not, List, [], ◌∷◌, ◌++◌, Option, some, none, ◌==◌,
  if◌then◌else◌, ◌>>=◌, drop,
}
use bats_protocol_api.Prelude.Int.{ℤ, pos, wrap}
use bats_protocol_api.Prelude.Octets.{Octets, le_octets, read_le}
use bats_protocol_api.Prelude.Floating.{Floating}
use bats_protocol_api.Common.{TestRole, role_none}

pub record TestConfig (Float : Type 0) : Type 0 where
  pub interval : Float
  pub time : Float
  pub resolution : Float
  pub num_streams : ℤ
  pub protocol : ℤ
  pub is_reverse_enabled : Bool
  pub is_compression_enabled : Bool
  pub is_debug_mode : Bool
  pub is_precise_time_enabled : Bool
  pub port : ℤ
  pub max_allowed_sending_rate : ℤ
  pub peer_host : Octets
  pub files : List Octets
  pub total_bytes_in_files : ℕ
  pub num_files : ℤ
  pub role : TestRole

module _ (F : Floating) where
  open F use {Float, of_nat, literal, times, over, to_nat}

  unfoldable pub default_config : TestConfig Float
  default_config = record {
    interval = literal 1 0;
    time = literal 10 0;
    resolution = literal 1 0;
    num_streams = pos 1;
    protocol = pos 0;
    is_reverse_enabled = false;
    is_compression_enabled = false;
    is_debug_mode = false;
    is_precise_time_enabled = false;
    port = pos 5201;
    max_allowed_sending_rate = pos 0;
    peer_host = [];
    files = [];
    total_bytes_in_files = 0;
    num_files = pos 0;
    role = role_none;
  }

  -- `static_cast<uint32_t>(x * 100)`
  unfoldable pub hundredths : Float → ℕ
  hundredths x = to_nat (times x (of_nat 100)) % 2 ^ 32

  unfoldable pub serialize : TestConfig Float → Octets
  serialize c =
      le_octets 4 (hundredths c.interval)
      ++ (le_octets 4 (hundredths c.time)
          ++ (wrap 256 c.protocol
              ∷ (if c.is_reverse_enabled then 1 else 0)
              ∷ le_octets 2 (wrap 65536 c.port)))

  unfoldable pub deserialize : Octets → TestConfig Float → Option (TestConfig Float)
  deserialize from c = do
    interval_100 ← read_le 4 from
    time_100 ← read_le 4 (drop 4 from)
    mode ← read_le 1 (drop 8 from)
    reverse ← read_le 1 (drop 9 from)
    on_port ← read_le 2 (drop 10 from)
    some (record c {
      interval = over (of_nat interval_100) (literal 100 0);
      time = over (of_nat time_100) (literal 100 0);
      protocol = pos mode;
      is_reverse_enabled = not (reverse == 0);
      port = pos on_port;
    })
