-- ===== src/Stream/Header/Laws.antt =====
-- The header of a block read back, and what the receiver's check says of the blocks a sender makes.
use bats_protocol_api.Prelude.{
  ℕ, ◌+◌, ◌-◌, ◌^◌, ◌≤◌, ◌<◌, ◌≡◌, refl, ap, sym, ◌∙◌, true, some, ◌++◌, arith, take, length,
  replicate, get_elem?, get_elem?-take, get_elem?-append_right, get_elem?-replicate, length-append,
  length-replicate, length-take,
}
use mathlib.Core.List.{append_assoc}
use bats_protocol_api.Prelude.Octets.{Octets, le_octets, read_le, read_le-take, read_le-le_octets}
use bats_protocol_api.Prelude.Results.{ok}
use bats_protocol_api.Common.{magic_code}
use bats_protocol_api.Stream.{TestHeader}
use bats_protocol_api.Stream.Header.{
  encode_header, decode_header, validate_received_data, check_filling, iperf_char, test_header_size,
  interval_data_size,
}

pub record InRange (h : TestHeader) : Type 0 where
  pub magic_fits : h.magic < 2 ^ 64
  pub identifier_fits : h.stream_identifier < 2 ^ 64
  pub seq_fits : h.seq < 2 ^ 64
  pub time_fits : h.time < 2 ^ 64
  pub grp_id_fits : h.grp_id < 2
  pub last_fits : h.last < 2
  pub ack_fits : h.ack < 2
  pub has_interval_fits : h.has_interval < 2
  pub reserved_fits : h.reserved < 16
  pub interval_id_fits : h.interval_id < 65536

-- The header of a data block is read back as it was written, whatever follows it, when each field
-- fits its width.
pub decode_header-encode_header :
    (h : TestHeader) (rest : Octets) → InRange h → decode_header (encode_header h ++ rest) ≡ ok h
unfolding decode_header encode_header le_octets read_le
decode_header-encode_header h rest v = ground arith

length-encode_header : (h : TestHeader) → length (encode_header h) ≡ test_header_size
unfolding encode_header le_octets
length-encode_header h = refl

-- Behind `front` a filled list has the filling.
filled_at :
    (front : Octets) (k i n : ℕ)
    → length front ≤ i
    → i < length front + k
    → i < n
    → get_elem? (take n (front ++ replicate k iperf_char)) i ≡ some iperf_char
filled_at front k i n lo hi h =
    let at : i ≡ length front + (i - length front) = omega arith in
    get_elem?-take n i _ h
    ∙ (ap (get_elem? (front ++ replicate k iperf_char)) at
        ∙ (get_elem?-append_right front _ (i - length front)
            ∙ get_elem?-replicate k (i - length front) iperf_char (omega arith)))

-- The magic code is read first.
magic-take :
    (h : TestHeader) (n : ℕ) (rest : Octets)
    → h.magic < 2 ^ 64
    → 8 ≤ n
    → read_le 8 (take n (encode_header h ++ rest)) ≡ some h.magic
unfolding encode_header
magic-take h n rest m k = read_le-take 8 n _ k ∙ rw append_assoc (read_le-le_octets 8 h.magic _ m)

check_filling_lem :
    (block : Octets) (n : ℕ)
    → ((i : ℕ)
        → test_header_size + interval_data_size ≤ i
        → i < n
        → get_elem? block i ≡ some iperf_char)
    → test_header_size + interval_data_size < n
    → check_filling block n ≡ ok true
unfolding check_filling
check_filling_lem block n at h = ground (arith, at 72, at (n - 1), at (n - 1 - 1500))

front-append :
    (h : TestHeader) (area rest : Octets)
    → encode_header h ++ (area ++ rest) ≡ (encode_header h ++ area) ++ rest
front-append h area rest = sym (append_assoc (encode_header h) area rest)

-- ValidateReceivedData accepts every block that is the beginning of a buffer with the magic code in
-- its header, any 32 octets behind the header, and the filling from there on, at any length from the
-- header alone to the whole buffer.
pub validate_received_data-block :
    (h : TestHeader) (area : Octets) (k n : ℕ)
    → h.magic ≡ magic_code
    → length area ≡ interval_data_size
    → test_header_size ≤ n
    → n ≤ test_header_size + interval_data_size + k
    → validate_received_data (take n (encode_header h ++ (area ++ replicate k iperf_char)))
      ≡ ok true
unfolding validate_received_data
validate_received_data-block h area k n m a lo hi =
    let front = encode_header h ++ area in
    let front_length : length front ≡ 72 =
      omega (arith, length-append (encode_header h) area, length-encode_header h) in
    let block = take n (front ++ replicate k iperf_char) in
    let block_length : length block ≡ n = omega (
      arith,
      length-take n (front ++ replicate k iperf_char),
      length-append front (replicate k iperf_char),
      length-replicate k iperf_char,
    ) in
    rw (front-append h area (replicate k iperf_char)) (
      ground (
        arith,
        front-append h area (replicate k iperf_char),
        magic-take h n (area ++ replicate k iperf_char),
        block_length,
        check_filling_lem block n (λ i l r. filled_at front k i n (omega arith) (omega arith) r),
      ))
