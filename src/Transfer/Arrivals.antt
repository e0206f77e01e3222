-- ===== src/Transfer/Arrivals.antt =====
-- One block of a file, from the sending thread to the receiver.
use bats_protocol_api.Transfer.Names.{has_hash-bit}
use bats_protocol_api.Prelude.Floating.{Floating}
use bats_protocol_api.Transfer.{Compressor, File, Transfer, FileStream}
use bats_protocol_api.Prelude.{
  ℕ, ◌<◌, Bool, ◌≡◌, ◌==◌, false, true, ◌++◌, ◌∷◌, arith, length, get_elem?, some, suc, refl, sym,
  ◌^◌, drop, ◌-◌, length-append, take, ap, take-append-drop,
}
use bats_protocol_api.Transfer.Sender.{FileSource, Progress, FileRound, meta_for}
use bats_protocol_api.Prelude.Octets.{Octets, is_empty}
use bats_protocol_api.Transfer.Names.{Fits, length-encode_meta, read_file_names-encode_meta}
use bats_protocol_api.Transfer.Block.{
  join_name, name_only, extension, encode_bk_header, encode_meta,
}
use bats_protocol_api.Prelude.Results.{ok}
use bats_protocol_api.Transfer.Reception.{
  IsSent, Received, good_storage, take_next, take_first, handle_received_file_data-Received,
}
use bats_protocol_api.Transfer.Turns.{
  block_header, chunk, rest_of_block, is_last, overhead, total_length-small, is_empty-length,
  IsGood, Restores, sent_body, body-fits, front_of, body-nonempty, plain-body, chunk-le,
}
use bats_protocol_api.Transfer.Receiver.{handle_received_file_data, content_of, plain}
use bats_protocol_api.Prelude.Int.{pos}

-- The name that the receiver writes to.
abbrev pub written_name : FileSource → Octets
written_name source = join_name (name_only source.name) (extension source.name)

module _ {F : Floating} (C : Compressor) (compression : Bool) (stream_id : ℕ) (file : File)
    (source : FileSource) (t₀ : Transfer F) (i left : ℕ) (fits : Fits source)
    (seq : file.bar_id < 10) (law : Restores C) where
  pub block_header-IsSent :
      (r : FileRound) (p : Progress) → IsSent (block_header C compression stream_id file source r p)
  block_header-IsSent r p = record {
    syn_fits = ground arith;
    fin_fits = ground arith;
    sum_fits = has_hash-bit source.hash;
    comp_fits = body-fits C compression (front_of p) (chunk r p);
    seq_fits = omega (arith, seq);
  }

  plain-sent :
      (r : FileRound) (p : Progress)
      → IsGood r
      → plain C
          (block_header C compression stream_id file source r p)
          (sent_body C compression stream_id file source r p).0
        ≡ chunk r p
  unfolding plain
  plain-sent r p good = plain-body C compression (front_of p) (chunk r p) law (chunk-le r p good)

  pub first_block :
      (r : FileRound) (p : Progress) (s : FileStream)
      → IsGood r
      → (p.sent == 0) ≡ true
      → get_elem? t₀.streams i ≡ some s
      → t₀.config.num_files ≡ pos (suc left)
      → is_empty (chunk r p) ≡ false
      → let h = block_header C compression stream_id file source r p in
        (u : Transfer F) × (handle_received_file_data C good_storage i
            (encode_bk_header h ∷ rest_of_block C compression stream_id file source r p)
            t₀
          ≡ ok u)
        × Received i (written_name source) (chunk r p) (h.fin == 1) left u
  first_block r p s good z g k e =
      let h = block_header C compression stream_id file source r p in
      let v = block_header-IsSent r p in
      let m = encode_meta (meta_for stream_id file source) in
      let starts : h.syn ≡ 1 = rw z refl in
      let b = (sent_body C compression stream_id file source r p).0 in
      let whole : rest_of_block C compression stream_id file source r p ≡ m ++ b = rw z refl in
      let x = plain-sent r p good in
      let y = body-nonempty C compression (front_of p) (chunk r p) e in
      let taken =
        take_first C h m b (chunk r p) (name_only source.name) (extension source.name) s t₀ left v
          starts (length-encode_meta stream_id file source fits)
          (read_file_names-encode_meta stream_id file source fits b) k x y e in
      rw whole (
        handle_received_file_data-Received C h (m ++ b) (written_name source) (chunk r p) i left s
          t₀ v g taken)

  pub next_block :
      (r : FileRound) (p : Progress) (t : Transfer F) (whole : Octets)
      → IsGood r
      → (p.sent == 0) ≡ false
      → Received i (written_name source) whole false left t
      → is_empty (chunk r p) ≡ false
      → let h = block_header C compression stream_id file source r p in
        (u : Transfer F) × (handle_received_file_data C good_storage i
            (encode_bk_header h ∷ rest_of_block C compression stream_id file source r p)
            t
          ≡ ok u)
        × Received i (written_name source) (whole ++ chunk r p) (h.fin == 1) left u
  next_block r p t whole good z v e =
      let h = block_header C compression stream_id file source r p in
      let w = block_header-IsSent r p in
      let starts : h.syn ≡ 0 = rw z refl in
      let b = (sent_body C compression stream_id file source r p).0 in
      let sent : rest_of_block C compression stream_id file source r p ≡ b = rw z refl in
      let x = plain-sent r p good in
      let y = body-nonempty C compression (front_of p) (chunk r p) e in
      let taken =
        take_next C h b (chunk r p) (written_name source) v.stream t left w starts v.writer v.files
          x y e in
      rw (sent, sym v.on_disk)
        (handle_received_file_data-Received C h b (written_name source)
          (content_of (written_name source) t.disk ++ chunk r p) i left v.stream t w v.there taken)

  pub is_last-drop :
      (content whole : Octets) (r : FileRound) (p : Progress)
      → whole ++ p.unread ≡ content
      → p.sent ≡ length whole
      → file.file_sz ≡ length content
      → length content < 2 ^ 31
      → is_last C compression stream_id file source r p
        ≡ is_empty (drop (r.ideal - overhead p) p.unread)
  is_last-drop content whole r p parts counted size small =
      let n = r.ideal - overhead p in
      let a = length-append whole p.unread in
      let b = length-append (take n p.unread) (drop n p.unread) in
      let c : length (take n p.unread ++ drop n p.unread) ≡ length p.unread =
        ap length (take-append-drop n p.unread) in
      let d : length (whole ++ p.unread) ≡ length content = ap length parts in
      let t = total_length-small file.file_sz (omega (arith, size, small)) in
      rw (t, is_empty-length (drop n p.unread)) (ground (arith, a, b, c, d, counted, size, small))
