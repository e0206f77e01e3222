-- ===== src/Stream/Control/Filling.antt =====
-- What the constructors of a stream and SwitchDataBlockLength leave in its buffer (example/iperf-bats/
-- iperf_stream.cc).
use bats_protocol_api.Stream.Control.{blank}
use bats_protocol_api.Prelude.Results.{◌>>◌, >>=-ok, assertion, require}
use bats_protocol_api.Prelude.{
  ℕ, replicate, ◌+◌, ◌≡◌, ◌≤◌, ◌++◌, ap, arith, suc, ◌∙◌, ◌∷◌, zero, ◌-◌, length, refl,
  length-replicate, subst, ltb, leb, some,
}
use bats_protocol_api.Stream.{Platform, IperfStream, Float, conn_connected}
use bats_protocol_api.Stream.Control.{
  switch_data_block_length, filling, new_connecting, first_header, buffer_size, new_accepted,
}
use bats_protocol_api.Stream.Header.{test_header_size, interval_data_size, iperf_char}
use bats_protocol_api.Common.{magic_code}
use bats_protocol_api.Prelude.Int.{ℤ}
use bats_protocol_api.Common.Config.{TestConfig}
use bats_protocol_api.Prelude.Results.{ok, ok-injective}
use bats_protocol_api.Stream.Blocks.{IsFilled}

replicate-split :
    (m n : ℕ) (octet : ℕ) → replicate (m + n) octet ≡ replicate m octet ++ replicate n octet
replicate-split zero n octet = ap (λ k. replicate k octet) (omega arith)
replicate-split (suc m) n octet =
    let more : suc m + n ≡ suc (m + n) = omega arith in
    ap (λ k. replicate k octet) more ∙ ap (λ l. octet ∷ l) (replicate-split m n octet)

-- The magic code, and as much filling as a buffer has behind a header.
pub record HasFilling {P : Platform} (s : IperfStream P) : Type 0 where
  pub size : ℕ
  pub has_magic : s.header.magic ≡ magic_code
  pub body_filled : s.body ≡ replicate (interval_data_size + size) iperf_char

buffer_size-least : (protocol : ℤ) → test_header_size + interval_data_size ≤ buffer_size protocol
unfolding buffer_size
buffer_size-least protocol = ground arith

filling-size :
    (protocol : ℤ)
    → filling (buffer_size protocol)
      ≡ replicate
          (interval_data_size + (buffer_size protocol - (test_header_size + interval_data_size)))
          iperf_char
unfolding filling
filling-size protocol =
    ap (λ (n : ℕ). replicate n iperf_char) (omega (arith, buffer_size-least protocol))

required : (m n : ℕ) {done : Unit {0}} → require (leb m n) assertion ≡ ok done → m ≤ n
required m n h = ground (arith, h)

module _ {P : Platform} where
  -- The sender's constructor fills the buffer.
  pub new_connecting-HasFilling :
      (recorder : P.Recorder) (config : TestConfig (Float P)) (id now : ℕ)
      → HasFilling {P = P} (new_connecting {P = P} recorder config id now)
  unfolding new_connecting first_header
  new_connecting-HasFilling recorder config id now = record {
    size = buffer_size config.protocol - (test_header_size + interval_data_size);
    has_magic = refl;
    body_filled = filling-size config.protocol;
  }

  switched :
      (ideal : ℕ) (s : IperfStream P) {t : IperfStream P}
      → switch_data_block_length ideal s ≡ ok t
      → (ideal ≤ test_header_size + length s.body) × (record s { ideal_length = ideal } ≡ t)
  unfolding switch_data_block_length
  switched ideal s {t} e =
      let most = leb ideal (test_header_size + length s.body) in
      let after = record s { ideal_length = ideal } in
      let (positive, p, r) =
        >>=-ok (require (ltb 0 ideal) assertion) (λ done. require most assertion >> ok after) e in
      let (within, q, w) = >>=-ok (require most assertion) (λ done. ok after) r in
      (required ideal (test_header_size + length s.body) q, ok-injective after t w)

  -- SwitchDataBlockLength with a length of a header or more leaves a filled buffer ready for the
  -- sending of blocks.
  pub switch_data_block_length-IsFilled :
      (ideal : ℕ) (s : IperfStream P) {t : IperfStream P}
      → HasFilling s
      → test_header_size ≤ ideal
      → switch_data_block_length ideal s ≡ ok t
      → IsFilled t
  switch_data_block_length-IsFilled ideal s {t} v least e =
      let (most, same) = switched ideal s e in
      let split = v.body_filled ∙ replicate-split interval_data_size v.size iperf_char in
      let count =
        ap length v.body_filled ∙ length-replicate (interval_data_size + v.size) iperf_char in
      subst (IsFilled {P = P}) same (record {
        area = replicate interval_data_size iperf_char;
        size = v.size;
        has_magic = v.has_magic;
        area_length = length-replicate interval_data_size iperf_char;
        body_filled = split;
        ideal_least = least;
        ideal_most = omega (arith, most, count);
      })

  -- The receiver's constructor leaves a stream whose buffer is ready for the sending of blocks.
  pub new_accepted-IsFilled :
      (recorder : P.Recorder) (config : TestConfig (Float P)) (id conn ideal : ℕ)
      {t : IperfStream P}
      → test_header_size ≤ ideal
      → new_accepted recorder config id conn ideal ≡ ok t
      → IsFilled t
  unfolding new_accepted first_header blank
  new_accepted-IsFilled recorder config id conn ideal {t} least e =
      switch_data_block_length-IsFilled ideal
        (record (blank recorder config id 0) { data_conn = some conn; conn_state = conn_connected })
        {t = t}
        (record {
          size = buffer_size config.protocol - (test_header_size + interval_data_size);
          has_magic = refl;
          body_filled = filling-size config.protocol;
        })
        least e
