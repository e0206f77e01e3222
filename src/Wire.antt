-- ===== src/Wire.antt =====
-- example/iperf-bats/iperf_test_api.h: struct iperf_control_data, the header of every message on a
-- control channel, as it lies in memory on a little-endian host (8-byte alignment, 32 octets).
pub mod Laws
use Prim.Native.Nat.{bit_or}
use bats_protocol_api.Prelude.{
  ℕ, ◌-◌, ◌*◌, ◌/◌, ◌%◌, ◌^◌, Option, some, List, [], ◌∷◌, ◌++◌, ◌>>=◌, drop, length, replicate,
}
use bats_protocol_api.Prelude.Octets.{Octets, le_octets, read_le}

pub record ControlHeader : Type 0 where
  pub magic : ℕ
  pub test_id : ℕ
  pub action_code : ℕ
  pub num_of_streams : ℕ
  pub param0 : ℕ
  pub param1 : ℕ
  pub param2 : ℕ
  pub param3 : ℕ

abbrev pub header_size : ℕ
header_size = 32

-- The two octets between `num_of_streams` and `param0` are padding.
unfoldable pub encode : ControlHeader → Octets
encode h =
    le_octets 8 h.magic
    ++ (le_octets 4 h.test_id
        ++ (le_octets 1 h.action_code
            ++ (le_octets 1 h.num_of_streams
                ++ (0
                    ∷ 0
                    ∷ (le_octets 4 h.param0
                        ++ (le_octets 4 h.param1
                            ++ (le_octets 4 h.param2 ++ le_octets 4 h.param3)))))))

unfoldable pub decode : Octets → Option ControlHeader
decode message = do
  m ← read_le 8 message
  t ← read_le 4 (drop 8 message)
  a ← read_le 1 (drop 12 message)
  n ← read_le 1 (drop 13 message)
  p0 ← read_le 4 (drop 16 message)
  p1 ← read_le 4 (drop 20 message)
  p2 ← read_le 4 (drop 24 message)
  p3 ← read_le 4 (drop 28 message)
  some (record {
    magic = m;
    test_id = t;
    action_code = a;
    num_of_streams = n;
    param0 = p0;
    param1 = p1;
    param2 = p2;
    param3 = p3;
  })

-- A zeroed buffer of `size` octets with the message written at its start.
unfoldable pub in_buffer : ℕ → Octets → Octets
in_buffer size message = message ++ replicate (size - length message) 0

-- `total >> 32` and `total & 0xFFFFFFFF`, each in 32 bits, and their recombination.
unfoldable pub high_word : ℕ → ℕ
high_word total = total / 2 ^ 32 % 2 ^ 32

unfoldable pub low_word : ℕ → ℕ
low_word total = total % 2 ^ 32

-- `(static_cast<int64_t>(hi) << 32) | lo`, as its bit pattern.
unfoldable pub join_words : ℕ → ℕ → ℕ
join_words hi lo = bit_or (hi * 2 ^ 32 % 2 ^ 64) lo
