-- ===== src/Stream/Header.antt =====
-- example/iperf-bats/iperf_stream.cc: struct iperf_test_header as it lies in a block (little
-- endian, 40 octets), and ValidateReceivedData.
pub mod Laws
use bats_protocol_api.Prelude.{
  ℕ, ◌+◌, ◌-◌, ◌*◌, ◌/◌, ◌%◌, Bool, true, false, not, some, none, [], ◌∷◌, ◌++◌, ◌==◌, ltb, leb,
  if◌then◌else◌, drop, get_elem?, length, take,
}
use bats_protocol_api.Prelude.Octets.{Octets, le_octets, read_le}
use bats_protocol_api.Prelude.Results.{Result, ok, fault, out_of_bounds, or_fault, ◌>>=◌}
use bats_protocol_api.Common.{magic_code}
use bats_protocol_api.Stream.{Platform, IperfStream, TestHeader}

abbrev pub iperf_char : ℕ
iperf_char = 0x77

abbrev pub test_header_size : ℕ
test_header_size = 40

-- bytes, datagrams, start_seq, bitrate
abbrev pub interval_data_size : ℕ
interval_data_size = 32

abbrev pub link_mtu : ℕ
link_mtu = 1500

-- The octet behind the bit fields and the last four are padding, and keep the buffer's filling.
unfoldable pub encode_header : TestHeader → Octets
encode_header h =
    le_octets 8 h.magic
    ++ (le_octets 8 h.stream_identifier
        ++ (le_octets 8 h.seq
            ++ (le_octets 8 h.time
                ++ ((h.grp_id + 2 * h.last + 4 * h.ack + 8 * h.has_interval + 16 * h.reserved)
                    ∷ iperf_char
                    ∷ (le_octets 2 h.interval_id
                        ++ (iperf_char ∷ iperf_char ∷ iperf_char ∷ iperf_char ∷ []))))))

unfoldable pub decode_header : Octets → Result TestHeader
decode_header block = do
  m ← or_fault (read_le 8 block) out_of_bounds
  i ← or_fault (read_le 8 (drop 8 block)) out_of_bounds
  s ← or_fault (read_le 8 (drop 16 block)) out_of_bounds
  t ← or_fault (read_le 8 (drop 24 block)) out_of_bounds
  flags ← or_fault (read_le 1 (drop 32 block)) out_of_bounds
  n ← or_fault (read_le 2 (drop 34 block)) out_of_bounds
  ok (record {
    magic = m;
    stream_identifier = i;
    seq = s;
    time = t;
    grp_id = flags % 2;
    last = flags / 2 % 2;
    ack = flags / 4 % 2;
    has_interval = flags / 8 % 2;
    reserved = flags / 16;
    interval_id = n;
  })

-- Whether the octet at `i` is the filling; a read past the end is a fault.
abbrev filled : Octets → ℕ → Result Bool
filled block i = elim (get_elem? block i) [
  | none ↦ fault out_of_bounds
  | some octet ↦ ok (octet == iperf_char)
]

-- The third test, for a block longer than a packet.
check_middle : Octets → ℕ → Result Bool
check_middle block n =
    if ltb (link_mtu + (test_header_size + interval_data_size)) n
    then filled block (n - 1 - link_mtu)
    else ok true

check_end : Octets → ℕ → Result Bool
unfolding check_middle
check_end block n = do
  at_end ← filled block (n - 1)
  if at_end then check_middle block n else ok false

check_filling : Octets → ℕ → Result Bool
unfolding check_end
check_filling block n = do
  at_start ← filled block (test_header_size + interval_data_size)
  if at_start then check_end block n else ok false

unfoldable pub validate_received_data : Octets → Result Bool
unfolding check_filling
validate_received_data block = do
  magic ← or_fault (read_le 8 block) out_of_bounds
  if not (magic == magic_code)
      then ok false
      else if leb (length block) (test_header_size + interval_data_size)
      then ok true
      else check_filling block (length block)

-- The first `ideal_length_` octets of the buffer.
unfoldable pub sent_block : {P : Platform} → IperfStream P → Octets
sent_block s = take s.ideal_length (encode_header s.header ++ s.body)
