-- ===== src/Wire/Laws.antt =====
-- The header as it travels.
use bats_protocol_api.Prelude.{ℕ, ◌*◌, ◌/◌, ◌%◌, ◌^◌, ◌<◌, ◌∙◌, ◌≡◌, some, ◌++◌, arith, length}
use bats_protocol_api.Prelude.Octets.{Octets, le_octets, read_le}
use bats_protocol_api.Prelude.Bits.{bit_or-add}
use bats_protocol_api.Wire.{
  ControlHeader, encode, decode, header_size, high_word, low_word, join_words,
}

-- Every field fits the width of its member.
pub record InRange (h : ControlHeader) : Type 0 where
  pub magic_fits : h.magic < 2 ^ 64
  pub id_fits : h.test_id < 2 ^ 32
  pub action_fits : h.action_code < 256
  pub streams_fit : h.num_of_streams < 256
  pub param0_fits : h.param0 < 2 ^ 32
  pub param1_fits : h.param1 < 2 ^ 32
  pub param2_fits : h.param2 < 2 ^ 32
  pub param3_fits : h.param3 < 2 ^ 32

-- The header is 32 octets long.
pub length-encode : (h : ControlHeader) → length (encode h) ≡ header_size
unfolding encode le_octets
length-encode h = ground arith

-- The header of a control message is read back as it was written, whatever follows it, when each
-- field fits its width.
pub decode-encode :
    (h : ControlHeader) (rest : Octets) → InRange h → decode (encode h ++ rest) ≡ some h
unfolding decode encode le_octets read_le
decode-encode h rest v = ground arith

shifted : (hi : ℕ) → hi < 2 ^ 32 → hi * 2 ^ 32 % 2 ^ 64 ≡ hi * 2 ^ 32
shifted hi h = omega arith

-- A total below 2^64 that is sent as two words of 32 bits is put together again as it was.
pub join_words-high_word-low_word :
    (total : ℕ) → total < 2 ^ 64 → join_words (high_word total) (low_word total) ≡ total
unfolding join_words high_word low_word
join_words-high_word-low_word total h =
    rw (shifted (total / 2 ^ 32 % 2 ^ 32) (omega arith))
      (bit_or-add 32 (total / 2 ^ 32 % 2 ^ 32) (total % 2 ^ 32) (omega arith) ∙ omega arith)
