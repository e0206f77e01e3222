-- ===== src/Transfer/Files.antt =====
-- The files of a queue, from the sending thread to the receiver's disk.
use bats_protocol_api.Transfer.Arrivals.{written_name}
use bats_protocol_api.Transfer.Stages.{received}
use bats_protocol_api.Transfer.Untouched.{Keeps}
use bats_protocol_api.Transfer.Sender.{FileTurn, transfer_thread, send_file}
use bats_protocol_api.Prelude.{
  List, ◌∷◌, Bool, [], ◌||◌, ◌≡◌, ℕ, false, ◌<◌, true, get_elem?, some, length, ◌^◌, ◌+◌, ◌∙◌, ap,
  arith, refl, ◌++◌,
}
use bats_protocol_api.Prelude.Octets.{Octets}
use bats_protocol_api.Prelude.Floating.{Floating}
use bats_protocol_api.Transfer.Block.{name_only}
use bats_protocol_api.Transfer.{Compressor, File, Transfer, FileStream}
use bats_protocol_api.Transfer.Untouched.{IsApart}
use bats_protocol_api.Transfer.Receiver.{content_of}
use bats_protocol_api.Transfer.Delivery.{AllGood, send_file-Delivered}
use bats_protocol_api.Transfer.Turns.{Restores}
use bats_protocol_api.Transfer.Names.{Fits}
use bats_protocol_api.Prelude.Results.{ok}
use bats_protocol_api.Prelude.Int.{pos}

-- A turn of the thread in which nothing fails, for the file that it takes from the queue.
pub record IsReady (turn : FileTurn) (file : File) (content : Octets) : Type 0 where
  pub runs : (turn.done || turn.failed) ≡ false
  pub fits : Fits turn.source
  pub first_ten : file.bar_id < 10
  pub opens : turn.source.content ≡ some content
  pub size : file.file_sz ≡ length content
  pub nonempty : 0 < length content
  pub small : length content < 2 ^ 31
  pub good : AllGood turn.rounds
  pub enough : length content < length turn.rounds

-- A turn for each file of the queue with its content, and one that finds the queue empty.
abbrev pub AllReady : List FileTurn → List File → List Octets → Type 0
AllReady [] files contents = ⊥
AllReady (turn ∷ turns) [] [] = (turn.done || turn.failed) ≡ false
AllReady (turn ∷ turns) [] (content ∷ contents) = ⊥
AllReady (turn ∷ turns) (file ∷ files) [] = ⊥
AllReady (turn ∷ turns) (file ∷ files) (content ∷ contents) =
    IsReady turn file content × AllReady turns files contents

-- A name that none of the files is written to, nor its hash.
abbrev pub IsApartFromAll : Octets → List FileTurn → List Octets → Type 0
IsApartFromAll other [] contents = Unit
IsApartFromAll other (turn ∷ turns) [] = Unit
IsApartFromAll other (turn ∷ turns) (content ∷ contents) =
    IsApart other (name_only turn.source.name) (written_name turn.source)
    × IsApartFromAll other turns contents

-- No file is written to the name of an earlier one, and neither is its hash.
abbrev pub AllApart : List FileTurn → List Octets → Type 0
AllApart [] contents = Unit
AllApart (turn ∷ turns) [] = Unit
AllApart (turn ∷ turns) (content ∷ contents) =
    IsApartFromAll (written_name turn.source) turns contents × AllApart turns contents

-- Every file is on the disk.
abbrev pub AllOnDisk : List FileTurn → List Octets → List (Octets × Octets) → Type 0
AllOnDisk [] contents disk = Unit
AllOnDisk (turn ∷ turns) [] disk = Unit
AllOnDisk (turn ∷ turns) (content ∷ contents) disk =
    (content_of (written_name turn.source) disk ≡ content) × AllOnDisk turns contents disk

module _ {F : Floating} (C : Compressor) (compression : Bool) (stream_id i : ℕ) where
  received-append :
      (newer older : List (Octets × Bool)) (t₀ t₁ : Transfer F)
      → received C i older t₀ ≡ ok t₁
      → received C i (newer ++ older) t₀ ≡ received C i newer t₁
  unfolding received
  received-append [] older t₀ t₁ h = h
  received-append (b ∷ newer) older t₀ t₁ h = rw (received-append newer older t₀ t₁ h) refl

  pub record Arrived (turns : List FileTurn) (files : List File) (contents : List Octets) (left : ℕ)
      (t₀ : Transfer F) : Type 0 where
    pub blocks : List (Octets × Bool)
    pub session : Transfer F
    pub sent : transfer_thread C compression stream_id turns files ≡ ok ([], (true, blocks))
    pub got : received C i blocks t₀ ≡ ok session
    pub on_disk : AllOnDisk turns contents session.disk
    pub files_left : session.config.num_files ≡ pos left
    pub others : (other : Octets) → IsApartFromAll other turns contents → Keeps other t₀ session

  nothing_left :
      (turn : FileTurn) (turns : List FileTurn) (left : ℕ) (t₀ : Transfer F)
      → (turn.done || turn.failed) ≡ false
      → t₀.config.num_files ≡ pos left
      → Arrived (turn ∷ turns) [] [] left t₀
  unfolding transfer_thread received
  nothing_left turn turns left t₀ h n = record {
    blocks = [];
    session = t₀;
    sent = rw h refl;
    got = refl;
    on_disk = tt;
    files_left = n;
    others = λ other a. refl;
  }

  -- One more file in front of the others.
  next_file :
      (turn : FileTurn) (turns : List FileTurn) (file : File) (files : List File) (content : Octets)
      (contents : List Octets) (left : ℕ) (t₀ t₁ : Transfer F) (bs : List (Octets × Bool))
      → (turn.done || turn.failed) ≡ false
      → IsApartFromAll (written_name turn.source) turns contents
      → send_file C compression stream_id file turn.source turn.rounds ≡ ok bs
      → received C i bs t₀ ≡ ok t₁
      → content_of (written_name turn.source) t₁.disk ≡ content
      → ((other : Octets)
          → IsApart other (name_only turn.source.name) (written_name turn.source)
          → Keeps other t₀ t₁)
      → Arrived turns files contents left t₁
      → Arrived (turn ∷ turns) (file ∷ files) (content ∷ contents) left t₀
  unfolding transfer_thread
  next_file turn turns file files content contents left t₀ t₁ bs runs apart e got stored kept v =
      record {
        blocks = v.blocks ++ bs;
        session = v.session;
        sent = rw (runs, e, v.sent) refl;
        got = received-append v.blocks bs t₀ t₁ got ∙ v.got;
        on_disk = (v.others (written_name turn.source) apart ∙ stored, v.on_disk);
        files_left = v.files_left;
        others = λ other x. v.others other x.1 ∙ kept other x.0;
      }

  arrived :
      Restores C
      → (turns : List FileTurn) (files : List File) (contents : List Octets) (left : ℕ)
        (s : FileStream) (t₀ : Transfer F)
      → AllReady turns files contents
      → AllApart turns contents
      → get_elem? t₀.streams i ≡ some s
      → t₀.config.num_files ≡ pos (length files + left)
      → Arrived turns files contents left t₀
  arrived law [] files contents left s t₀ r a g n = absurd r
  arrived law (turn ∷ turns) [] [] left s t₀ r a g n =
      nothing_left turn turns left t₀ r (n ∙ ap pos (omega arith))
  arrived law (turn ∷ turns) [] (content ∷ contents) left s t₀ r a g n = absurd r
  arrived law (turn ∷ turns) (file ∷ files) [] left s t₀ r a g n = absurd r
  arrived law (turn ∷ turns) (file ∷ files) (content ∷ contents) left s t₀ r a g n =
      let h = r.0 in
      let (bs, e, t₁, got, rec, kept) =
        send_file-Delivered C compression stream_id file turn.source t₀ i (length files + left)
          content s turn.rounds law h.fits h.first_ten h.opens h.size h.nonempty h.small g
          (n ∙ ap pos (omega arith)) h.good h.enough in
      let v = arrived law turns files contents left rec.stream t₁ r.1 a.1 rec.there rec.files in
      next_file turn turns file files content contents left t₀ t₁ bs h.runs a.0 e got rec.on_disk
        kept v

  -- The files of a queue, one turn of the sending thread for each, over rounds in which nothing
  -- fails: the thread sends them all, leaves the queue empty and is done; and a receiver that takes
  -- the blocks in their order, on one stream, has every file with exactly its content under its name
  -- and counts as many files less. Each file is one that can be delivered, and the compressor
  -- restores what it compresses. The name of a file is neither that of a later file nor that of the
  -- file that a later file's hash is written to, whether or not the later file has a hash.
  pub transfer_thread-delivered :
      (turns : List FileTurn) (files : List File) (contents : List Octets) (left : ℕ)
      (s : FileStream) (t₀ : Transfer F)
      → Restores C
      → AllReady turns files contents
      → AllApart turns contents
      → get_elem? t₀.streams i ≡ some s
      → t₀.config.num_files ≡ pos (length files + left)
      → (blocks : List (Octets × Bool)) × (transfer_thread C compression stream_id turns files
          ≡ ok ([], (true, blocks)))
        × (t : Transfer F) × (received C i blocks t₀ ≡ ok t)
        × AllOnDisk turns contents t.disk
        × (t.config.num_files ≡ pos left)
  transfer_thread-delivered turns files contents left s t₀ law r a g n =
      let v = arrived law turns files contents left s t₀ r a g n in
      (v.blocks, v.sent, v.session, v.got, v.on_disk, v.files_left)
