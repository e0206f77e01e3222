-- ===== src/Transfer/Turns.antt =====
-- One turn of the sending thread in which nothing fails.
use bats_protocol_api.Transfer.Sender.{has_hash}
-- A round in which nothing fails: the wait and the sending come to an end, and the ideal length has
-- room for the meta data and some content.
use bats_protocol_api.Transfer.Sender.{
  FileRound, total_length, Progress, FileSource, file_block, read_length, file_turn, send_chunk,
  payload, meta_for, max_send_buf_sz,
}
use bats_protocol_api.Prelude.Octets.{Octets, is_empty}
use bats_protocol_api.Transfer.{Compressor, File}
use bats_protocol_api.Prelude.{
  ℕ, ◌&&◌, take, if◌then◌else◌, ◌≡◌, ◌<◌, not, ◌-◌, length, ◌==◌, ◌^◌, true, drop, Bool, ◌∷◌, arith,
  [], ◌+◌, ltb, some, false, ◌++◌, ◌%◌, refl, Bool-cases, length-take, ◌≤◌, inl, inr, leb, ◌||◌,
}
use bats_protocol_api.Stream.Send.{wait_writable}
use bats_protocol_api.Transfer.Block.{
  file_meta_size, encode_meta, BlockHeader, encode_bk_header, bk_header_size,
}
use bats_protocol_api.Prelude.Results.{ok}
use bats_protocol_api.Retry.{retry}

pub record IsGood (r : FileRound) : Type 0 where
  pub runs : (r.active && not r.bad && not r.failed && r.has_stream) ≡ true
  pub becomes_writable : wait_writable r.writable r.waits ≡ some tt
  pub sends : (ok_now : Bool) × (retry r.sending.at_once r.sending.polls ≡ some ok_now)
  pub ideal_least : file_meta_size + bk_header_size < r.ideal
  pub ideal_most : r.ideal ≤ max_send_buf_sz

pub total_length-small : (n : ℕ) → n < 2 ^ 31 → total_length n ≡ n
unfolding total_length
total_length-small n h = ground arith

pub is_empty-length : (xs : Octets) → is_empty xs ≡ (length xs == 0)
is_empty-length [] = refl
is_empty-length (x ∷ xs) = ground arith

abbrev pub overhead : Progress → ℕ
overhead p = if p.sent == 0 then file_meta_size + bk_header_size else file_meta_size

abbrev pub front_of : Progress → ℕ
front_of p = if p.sent == 0 then bk_header_size + file_meta_size else bk_header_size

abbrev pub chunk : FileRound → Progress → Octets
chunk r p = take (r.ideal - overhead p) p.unread

-- What stands in a block for a chunk, behind `front` other octets, and whether it is compressed.
pub body : Compressor → Bool → ℕ → Octets → Octets × ℕ
body C compression front chunk =
    let compressed = C.compress (max_send_buf_sz - front) chunk in
    if not compression
    then (chunk, 0)
    else if is_empty compressed || ltb (length chunk) (length compressed)
    then (chunk, 0)
    else (compressed, 1)

-- The compressor gives back what it compressed, if it did, from as much as a block can hold.
abbrev pub Restores : Compressor → Type 0
Restores C =
    (room : ℕ) (chunk : Octets)
    → length chunk ≤ max_send_buf_sz
    → is_empty (C.compress room chunk) ≡ false
    → C.decompress (C.compress room chunk) ≡ chunk

pub chunk-le : (r : FileRound) (p : Progress) → IsGood r → length (chunk r p) ≤ max_send_buf_sz
chunk-le r p v = omega (arith, length-take (r.ideal - overhead p) p.unread, v.ideal_most)

module _ (C : Compressor) (compression : Bool) (front : ℕ) (chunk : Octets) where
  body-le : length (body C compression front chunk).0 ≤ length chunk
  unfolding body
  body-le = ground arith

  payload-body :
      (ideal_read : ℕ)
      → length chunk ≤ ideal_read
      → payload C compression ideal_read front chunk ≡ ok (body C compression front chunk)
  unfolding body payload
  payload-body ideal_read h = ground (arith, h)

  pub body-nonempty : is_empty chunk ≡ false → is_empty (body C compression front chunk).0 ≡ false
  unfolding body
  body-nonempty h = ground (arith, h)

  pub body-fits : (body C compression front chunk).1 < 2
  unfolding body
  body-fits = ground arith

  pub plain-body :
      Restores C
      → length chunk ≤ max_send_buf_sz
      → (if (body C compression front chunk).1 == 1
          then C.decompress (body C compression front chunk).0
          else (body C compression front chunk).0)
        ≡ chunk
  unfolding body
  plain-body law small = ground (arith, law (max_send_buf_sz - front) chunk small)

module _ (C : Compressor) (compression : Bool) (stream_id : ℕ) (file : File)
    (source : FileSource) where
  abbrev pub sent_body : FileRound → Progress → Octets × ℕ
  sent_body r p = body C compression (front_of p) (chunk r p)

  abbrev pub is_last : FileRound → Progress → Bool
  is_last r p = (p.sent + length (chunk r p)) % 2 ^ 64 == total_length file.file_sz

  abbrev pub block_header : FileRound → Progress → BlockHeader
  block_header r p = record {
    syn = if p.sent == 0 then 1 else 0;
    fin = if is_last r p then 1 else 0;
    has_sum = has_hash source.hash;
    has_comp = (sent_body r p).1;
    file_seq = file.bar_id % 16;
  }

  abbrev pub rest_of_block : FileRound → Progress → Octets
  rest_of_block r p =
      (if p.sent == 0 then encode_meta (meta_for stream_id file source) else [])
      ++ (sent_body r p).0

  abbrev pub after_turn : FileRound → Progress → Progress
  after_turn r p = record {
    unread = drop (r.ideal - overhead p) p.unread;
    eof = ltb (length p.unread) (r.ideal - overhead p);
    sent = (p.sent + length (chunk r p)) % 2 ^ 64;
    blocks = (encode_bk_header (block_header r p) ∷ rest_of_block r p, is_last r p) ∷ p.blocks;
  }

  abbrev pub at_end : FileRound → Progress → Progress
  at_end r p = record p {
    unread = drop (r.ideal - overhead p) p.unread;
    eof = ltb (length p.unread) (r.ideal - overhead p);
  }

  read_length-good :
      (r : FileRound) (p : Progress)
      → IsGood r
      → read_length r.ideal (p.sent == 0) ≡ ok (r.ideal - overhead p)
  unfolding read_length
  read_length-good r p v = elim (Bool-cases (p.sent == 0)) [
    | inl b ↦ ground (arith, v.ideal_least, v.ideal_most)
    | inr b ↦ ground (arith, v.ideal_least, v.ideal_most)
  ]

  room :
      (r : FileRound) (p : Progress)
      → IsGood r
      → leb (front_of p + length (sent_body r p).0) max_send_buf_sz ≡ true
  room r p v =
      let l = length-take (r.ideal - overhead p) p.unread in
      let b = body-le C compression (front_of p) (chunk r p) in
      elim (Bool-cases (p.sent == 0)) [
        | inl z ↦ ground (arith, l, b, v.ideal_least, v.ideal_most)
        | inr z ↦ ground (arith, l, b, v.ideal_least, v.ideal_most)
      ]

  file_block-good :
      (r : FileRound) (p : Progress)
      → IsGood r
      → file_block C compression stream_id file source p.sent (r.ideal - overhead p) (chunk r p)
        ≡ ok (encode_bk_header (block_header r p) ∷ rest_of_block r p, is_last r p)
  unfolding file_block
  file_block-good r p v =
      let short : length (chunk r p) ≤ r.ideal - overhead p =
        omega (arith, length-take (r.ideal - overhead p) p.unread) in
      let paid = payload-body C compression (front_of p) (chunk r p) (r.ideal - overhead p) short in
      rw (paid, room r p v) refl

  pub file_turn-chunk :
      (r : FileRound) (p : Progress)
      → IsGood r
      → is_empty (chunk r p) ≡ false
      → file_turn C compression stream_id file source r p ≡ ok (after_turn r p)
  unfolding file_turn send_chunk
  file_turn-chunk r p v e =
      let has : r.has_stream ≡ true = ground (arith, v.runs) in
      rw (v.becomes_writable, read_length-good r p v, e, file_block-good r p v, has, v.sends.1) refl

  pub file_turn-end :
      (r : FileRound) (p : Progress)
      → IsGood r
      → is_empty (chunk r p) ≡ true
      → file_turn C compression stream_id file source r p ≡ ok (at_end r p)
  unfolding file_turn
  file_turn-end r p v e = rw (v.becomes_writable, read_length-good r p v, e) refl
