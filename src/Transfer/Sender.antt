-- ===== src/Transfer/Sender.antt =====
-- example/iperf-bats/iperf_file_transfer.cc: CreateFileTransferThread, the thread that takes files
-- from the queue and sends them over its stream. What it meets meanwhile is a schedule of rounds.
use bats_protocol_api.Prelude.{leb, replicate, take, ◌++◌, length}
-- One turn of the inner loop: what IsInActive, the reader's bad() and the error flag say at its
-- start, the wait for a writable connection, the ideal length, whether the stream still has its
-- connection, and the sending.
use bats_protocol_api.Prelude.{
  Bool, ℕ, ◌||◌, Option, List, if◌then◌else◌, none, ◌==◌, ltb, some, not, ◌-◌, ◌%◌, ◌+◌, [], false,
  ◌∷◌, ◌^◌, length, leb, replicate, take, ◌++◌, ◌&&◌, drop,
}
use bats_protocol_api.Prelude.Octets.{Octets, is_empty}
use bats_protocol_api.Transfer.{Compressor, File}
use bats_protocol_api.Prelude.Results.{
  Result, ◌>>◌, fault, ◌>>=◌, ok, or_fault, require, waiting, null_pointer, assertion,
  out_of_bounds,
}
use bats_protocol_api.Retry.{Poll, retry}
use bats_protocol_api.Transfer.Block.{
  file_meta_size, FileMeta, bk_header_size, file_code, max_hash_length, encode_bk_header,
  text_field, encode_meta, max_name_length, name_only, max_extension_length, extension,
}
use bats_protocol_api.Stream.{Sending}
use bats_protocol_api.Stream.Send.{wait_writable}

pub record FileRound : Type 0 where
  pub active : Bool
  pub bad : Bool
  pub failed : Bool
  pub writable : Bool
  pub waits : List Poll
  pub ideal : ℕ
  pub has_stream : Bool
  pub sending : Sending

-- The file as the thread finds it: the last part of its path, what the file with its hash has (if
-- there is one) and the content (if it opens).
pub record FileSource : Type 0 where
  pub name : Octets
  pub hash : Option Octets
  pub content : Option Octets

-- The reader and the count of one file. `blocks` are the blocks that SendData got, with their flag
-- FIN, the last one first.
pub record Progress : Type 0 where
  pub unread : Octets
  pub eof : Bool
  pub sent : ℕ
  pub blocks : List (Octets × Bool)

-- One turn of the outer loop: whether the state is TEST_DONE, the error flag, the file that the
-- next entry of the queue stands for, and the turns of the inner loop.
pub record FileTurn : Type 0 where
  pub done : Bool
  pub failed : Bool
  pub source : FileSource
  pub rounds : List FileRound

abbrev pub max_send_buf_sz : ℕ
max_send_buf_sz = 300000

-- `const int total_file_length = cur_file.file_sz`, where it is used as a uint64_t.
unfoldable pub total_length : ℕ → ℕ
total_length size =
    if ltb (size % 2 ^ 32) (2 ^ 31) then size % 2 ^ 32 else size % 2 ^ 32 + (2 ^ 64 - 2 ^ 32)

-- The buffer for the hash: up to 64 octets that are read, over zeros. A hash that is too short stays
-- in it.
unfoldable pub read_hash : Option Octets → Octets
read_hash none = replicate max_hash_length 0
read_hash (some sum) = take max_hash_length (sum ++ replicate max_hash_length 0)

-- `has_sum`: 64 octets were read.
unfoldable pub has_hash : Option Octets → ℕ
has_hash none = 0
has_hash (some sum) = if leb max_hash_length (length sum) then 1 else 0

-- The meta data of a file.
unfoldable pub meta_for : ℕ → File → FileSource → FileMeta
meta_for stream_id file source = record {
  magic = file_code;
  stream_identifier = stream_id;
  compression = 0;
  reserved = 0;
  file_length = total_length file.file_sz % 2 ^ 56;
  sha256sum = read_hash source.hash;
  file_name = text_field max_name_length (name_only source.name);
  file_extension = text_field max_extension_length (extension source.name);
}

-- The length to read: the difference is an int, and a negative one fails the assertion.
unfoldable pub read_length : ℕ → Bool → Result ℕ
read_length ideal first = do
  let overhead = if first then file_meta_size + bk_header_size else file_meta_size
  require (leb overhead ideal && leb (ideal - overhead) max_send_buf_sz) assertion
  ok (ideal - overhead)

module _ (C : Compressor) (is_compression_enabled : Bool) where
  -- What stands in the block for the octets that were read, and whether it is compressed.
  unfoldable pub payload : ℕ → ℕ → Octets → Result (Octets × ℕ)
  payload ideal_read front chunk =
      let compressed = C.compress (max_send_buf_sz - front) chunk in
      if not is_compression_enabled
      then ok (chunk, 0)
      else if is_empty compressed || ltb (length chunk) (length compressed)
      then ok (chunk, 0)
      else (do require (leb (length compressed) ideal_read) assertion; ok (compressed, 1))

  -- The block for the octets that were read, and its flag FIN. All bit fields are set here.
  unfoldable pub file_block : ℕ → File → FileSource → ℕ → ℕ → Octets → Result (Octets × Bool)
  file_block stream_id file source sent ideal_read chunk = do
    let first = sent == 0
    let front = if first then bk_header_size + file_meta_size else bk_header_size
    (body, comp) ← payload ideal_read front chunk
    require (leb (front + length body) max_send_buf_sz) out_of_bounds
    let last = (sent + length chunk) % 2 ^ 64 == total_length file.file_sz
    let header = encode_bk_header (record {
      syn = if first then 1 else 0;
      fin = if last then 1 else 0;
      has_sum = has_hash source.hash;
      has_comp = comp;
      file_seq = file.bar_id % 16;
    })
    let meta = if first then encode_meta (meta_for stream_id file source) else []
    ok (header ∷ (meta ++ body), last)

  -- The octets count as sent whatever `send_ok` is in the end.
  unfoldable pub send_chunk :
      ℕ → File → FileSource → FileRound → ℕ → Octets → Progress → Result Progress
  send_chunk stream_id file source round ideal_read chunk p = do
    (block, last) ← file_block stream_id file source p.sent ideal_read chunk
    require round.has_stream null_pointer
    send_ok ← or_fault (retry round.sending.at_once round.sending.polls) waiting
    ok (record p { sent = (p.sent + length chunk) % 2 ^ 64; blocks = (block, last) ∷ p.blocks })

  -- The body of the inner loop: a read that comes short meets the end of the file.
  unfoldable pub file_turn : ℕ → File → FileSource → FileRound → Progress → Result Progress
  file_turn stream_id file source round p = do
    or_fault (wait_writable round.writable round.waits) waiting
    ideal_read ← read_length round.ideal (p.sent == 0)
    let chunk = take ideal_read p.unread
    let q = record p { unread = drop ideal_read p.unread; eof = ltb (length p.unread) ideal_read }
    if is_empty chunk then ok q else send_chunk stream_id file source round ideal_read chunk q

  unfoldable pub leaves : FileRound → Progress → Bool
  leaves round p = p.eof || not round.active || round.bad || round.failed

  unfoldable pub file_loop : ℕ → File → FileSource → List FileRound → Progress → Result Progress
  file_loop stream_id file source [] p = if p.eof then ok p else fault waiting
  file_loop stream_id file source (round ∷ rounds) p =
      let next = (do
        q ← file_turn stream_id file source round p
        file_loop stream_id file source rounds q) in
      if leaves round p then ok p else next

  -- One file; one that does not open is left out.
  unfoldable pub send_file : ℕ → File → FileSource → List FileRound → Result (List (Octets × Bool))
  send_file stream_id file source rounds = elim source.content [
    | none ↦ ok []
    | some content ↦ (do
      p ←
          file_loop stream_id file source rounds
            (record { unread = content; eof = false; sent = 0; blocks = [] })
      ok p.blocks)
  ]

  -- The thread. The result is the queue that it leaves, whether it set `is_done`, and the blocks.
  unfoldable pub transfer_thread :
      ℕ → List FileTurn → List File → Result (List File × (Bool × List (Octets × Bool)))
  transfer_thread stream_id [] queue = fault waiting
  transfer_thread stream_id (turn ∷ turns) [] = ok ([], (not (turn.done || turn.failed), []))
  transfer_thread stream_id (turn ∷ turns) (file ∷ queue) =
      let next = (do
        blocks ← send_file stream_id file turn.source turn.rounds
        (left, (is_done, others)) ← transfer_thread stream_id turns queue
        ok (left, (is_done, others ++ blocks))) in
      if turn.done || turn.failed then ok (file ∷ queue, (false, [])) else next
