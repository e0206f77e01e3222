-- ===== src/Transfer/Large.antt =====
-- Files of 2 GiB and more, whose size does not fit the int in which the sending thread keeps it.

use bats_protocol_api.Transfer.Sender.{file_block, total_length, FileSource, payload}
use bats_protocol_api.Prelude.{
  ℕ, ◌^◌, Bool, ◌≤◌, ◌<◌, ◌%◌, ◌==◌, ◌≡◌, false, ◌+◌, arith, length, if◌then◌else◌, inr, inl,
}
use bats_protocol_api.Transfer.{Compressor, File}
use bats_protocol_api.Prelude.Octets.{Octets}
use bats_protocol_api.Prelude.Results.{ok, Result-cases}
use bats_protocol_api.Transfer.Block.{bk_header_size, file_meta_size}

no_match :
    (sent size : ℕ)
    → 2 ^ 31 ≤ size
    → size < 2 ^ 32
    → sent ≤ size
    → (sent % 2 ^ 64 == total_length size) ≡ false
unfolding total_length
no_match sent size large small within = ground arith

-- No block that the sending thread makes of a file from 2 GiB up to 4 GiB has the flag FIN, with or
-- without compression, as long as no more is sent than the file has.
pub file_block-unfinished :
    (C : Compressor) (compressing : Bool) (stream_id : ℕ) (file : File) (source : FileSource)
    (sent ideal_read : ℕ) (chunk : Octets) {block : Octets} {last : Bool}
    → file_block C compressing stream_id file source sent ideal_read chunk ≡ ok (block, last)
    → sent + length chunk ≤ file.file_sz
    → 2 ^ 31 ≤ file.file_sz
    → file.file_sz < 2 ^ 32
    → last ≡ false
unfolding file_block
file_block-unfinished C compressing stream_id file source sent ideal_read chunk {block} {last} e
      within large small =
    elim (Result-cases (
      payload C compressing ideal_read
        (if sent == 0 then bk_header_size + file_meta_size else bk_header_size) chunk)) [
          | inr (f, q) ↦ absurd (ground arith)
          | inl (b, q) ↦
              let never = no_match (sent + length chunk) file.file_sz large small within in
              ground (arith, never)
        ]
