-- ===== src/Transfer/Receiver.antt =====
-- example/iperf-bats/iperf_file_transfer.cc: HandleReceivedFileData and WriteFileSha256.

-- What the file system says in one call: whether the file opens, and whether the write fails. A
-- stream that did not open its file keeps its writer, whose writes fail.
use bats_protocol_api.Prelude.{
  Bool, List, [], take, ◌∷◌, if◌then◌else◌, ℕ, ◌++◌, ltb, ◌==◌, get_elem?, drop, some, none, leb,
  ◌/◌, not, ◌+◌, ◌||◌, length, set, ◌%◌, ◌^◌,
}
use bats_protocol_api.Prelude.Octets.{Octets, octets_eq, read_le, codes, is_empty}
use bats_protocol_api.Prelude.Floating.{Floating}
use bats_protocol_api.Transfer.Block.{
  BlockHeader, read_file_names, max_hash_length, join_name, file_meta_size, decode_bk_header,
}
use bats_protocol_api.Transfer.{FileStream, Compressor, Transfer}
use bats_protocol_api.Prelude.Int.{ltb_ℤ, pos, ◌-ℤ◌}
use bats_protocol_api.Prelude.Results.{
  Result, ◌>>◌, ◌>>=◌, or_fault, require, assertion, ok, out_of_bounds,
}
use bats_protocol_api.Test.{test_done}

pub record Storage : Type 0 where
  pub opens : Bool
  pub bad : Bool

-- The content of a file; a file that is not there reads as empty.
unfoldable pub content_of : Octets → List (Octets × Octets) → Octets
content_of name [] = []
content_of name (entry ∷ disk) = if octets_eq name entry.0 then entry.1 else content_of name disk

-- Opening truncates, writing appends.
unfoldable pub truncate : Octets → List (Octets × Octets) → List (Octets × Octets)
truncate name disk = (name, []) ∷ disk

unfoldable pub append : Octets → Octets → List (Octets × Octets) → List (Octets × Octets)
append name octets disk = (name, content_of name disk ++ octets) ∷ disk

unfoldable pub write_file_sha256 : Octets → Octets → List (Octets × Octets) → List (Octets × Octets)
write_file_sha256 name meta disk =
    append name (take max_hash_length (drop 24 meta) ++ (10 ∷ [])) (truncate name disk)

-- The octets to write; none where the decompressor gives up.
unfoldable pub plain : Compressor → BlockHeader → Octets → Octets
plain C header content = if header.has_comp == 1 then C.decompress content else content

module _ {F : Floating} where
  -- The names and the length of the first block; the hash goes to a file of its own.
  unfoldable pub start_file :
      BlockHeader → Octets → FileStream → Transfer F → FileStream × Transfer F
  start_file header meta s t =
      let (name, ext) = read_file_names meta in
      (
        record s {
          file_name = join_name name ext;
          file_length = elim (read_le 8 (drop 16 meta)) [ none ↦ 0 | some word ↦ word / 256 ];
          file_writer = some (join_name name ext);
        },
        if header.has_sum == 1
            then record t { disk = write_file_sha256 (name ++ codes ".sha256sum") meta t.disk }
            else t,
      )

  -- The last block closes the file; the session is done with its last file.
  unfoldable pub finish_file : FileStream → Transfer F → FileStream × Transfer F
  finish_file s t =
      let left =
        if ltb_ℤ (pos 0) t.config.num_files
        then t.config.num_files -ℤ pos 1
        else t.config.num_files in
      (
        record s { file_writer = none; write_bytes = 0 },
        if ltb_ℤ (pos 0) left
            then record t { config = record t.config { num_files = left } }
            else record t { config = record t.config { num_files = pos 0 }; state = test_done },
      )

  unfoldable pub store :
      Storage
      → BlockHeader
      → Octets
      → Octets
      → FileStream
      → Transfer F
      → Result (FileStream × Transfer F)
  store storage header content octets s t = do
    name ← or_fault s.file_writer assertion
    let u = record t { disk = append name octets t.disk }
    let v = record s { write_bytes = (s.write_bytes + length content) % 2 ^ 64 }
    require (ltb header.file_seq 10) assertion
    ok (if header.fin == 1 then finish_file v u else (v, u))

  -- The content of a block, behind its header and its meta data.
  unfoldable pub take_content :
      Compressor
      → Storage
      → BlockHeader
      → Octets
      → FileStream
      → Transfer F
      → Result (FileStream × Transfer F)
  take_content C storage header content s t = do
    require (not (is_empty content)) assertion
    let octets = plain C header content
    if is_empty octets || storage.bad then ok (s, t) else store storage header content octets s t

  unfoldable pub take_block :
      Compressor
      → Storage
      → BlockHeader
      → Octets
      → FileStream
      → Transfer F
      → Result (FileStream × Transfer F)
  take_block C storage header rest s t =
      if header.syn == 1
      then (do
        require (leb file_meta_size (length rest)) out_of_bounds
        let (u, v) = start_file header rest s t
        if storage.opens
            then take_content C storage header (drop file_meta_size rest) u
                (record v { disk = truncate u.file_name v.disk })
            else ok (u, v))
      else take_content C storage header rest s t

  -- A block for the stream with the index `i`; one for a stream that is not there is left out.
  unfoldable pub handle_received_file_data :
      Compressor → Storage → ℕ → Octets → Transfer F → Result (Transfer F)
  handle_received_file_data C storage i block t = elim (get_elem? t.streams i) [
    | none ↦ ok t
    | some s ↦ (do
      first ← or_fault (get_elem? block 0) out_of_bounds
      (u, v) ← take_block C storage (decode_bk_header first) (drop 1 block) s t
      ok (record v { streams = set v.streams i u }))
  ]
