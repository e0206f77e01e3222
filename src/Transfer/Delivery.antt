-- ===== src/Transfer/Delivery.antt =====
-- A file from the sending thread to the receiver's disk, with or without compression.
use bats_protocol_api.Transfer.Arrivals.{written_name}
use bats_protocol_api.Transfer.Stages.{received, Stage, chunk-Stage, end-Stage, start}
use bats_protocol_api.Transfer.Untouched.{Keeps, IsApart}
use bats_protocol_api.Prelude.Floating.{Floating}
use bats_protocol_api.Transfer.{Compressor, File, Transfer, FileStream}
use bats_protocol_api.Prelude.{
  ℕ, List, ◌<◌, Bool, ◌≡◌, ◌==◌, false, true, ◌++◌, ◌∷◌, arith, length, get_elem?, [], some, suc,
  refl, sym, ◌^◌, ◌-◌, ap, Bool-cases, inl, ◌∙◌, subst, inr, length-drop, ◌⊎◌, ◌||◌, not,
  append-nil,
}
use bats_protocol_api.Transfer.Sender.{
  FileSource, Progress, FileRound, file_loop, leaves, send_file,
}
use bats_protocol_api.Prelude.Octets.{Octets, is_empty}
use bats_protocol_api.Transfer.Names.{Fits}
use bats_protocol_api.Transfer.Block.{name_only}
use bats_protocol_api.Prelude.Results.{ok}
use bats_protocol_api.Transfer.Reception.{Received}
use bats_protocol_api.Transfer.Turns.{
  chunk, after_turn, overhead, IsGood, at_end, file_turn-end, file_turn-chunk, Restores,
}
use bats_protocol_api.Prelude.Int.{pos}
use bats_protocol_api.Transfer.Chunks.{positive-length, nonempty-take}

unfoldable pub AllGood : List FileRound → Type 0
AllGood [] = Unit
AllGood (r ∷ rounds) = IsGood r × AllGood rounds

module _ {F : Floating} (C : Compressor) (compression : Bool) (stream_id : ℕ) (file : File)
    (source : FileSource) (t₀ : Transfer F) (i left : ℕ) (fits : Fits source)
    (seq : file.bar_id < 10) (law : Restores C) where
  complete :
      (content : Octets) (s : FileStream)
      → get_elem? t₀.streams i ≡ some s
      → t₀.config.num_files ≡ pos (suc left)
      → file.file_sz ≡ length content
      → length content < 2 ^ 31
      → (rounds : List FileRound) → AllGood rounds
      → (p : Progress) → Stage C compression stream_id file source t₀ i left content p
      → (p.eof ≡ true) ⊎ (length p.unread < length rounds)
      → (q : Progress) × (file_loop C compression stream_id file source rounds p ≡ ok q)
        × Stage C compression stream_id file source t₀ i left content q
        × (q.unread ≡ [])
  unfolding file_loop leaves AllGood
  complete content s g k size small [] good p v m = elim m [
    | inl eof ↦ (p, rw eof refl, v, v.at_eof eof)
    | inr short ↦ absurd (omega arith)
  ]
  complete content s g k size small (r ∷ rounds) good p v m = elim (Bool-cases p.eof) [
    | inl eof ↦ (p, rw eof refl, v, v.at_eof eof)
    | inr more ↦
        let goes : (p.eof || not r.active || r.bad || r.failed) ≡ false =
          ground (arith, more, good.0.runs) in
        elim (Bool-cases (is_empty (chunk r p))) [
          | inl e ↦
              let (none_left, w) =
                end-Stage C compression stream_id file source t₀ i left fits seq law content r p
                  good.0 e v in
              let turn = file_turn-end C compression stream_id file source r p good.0 e in
              let (q, l, x, y) =
                complete content s g k size small rounds good.1
                  (at_end C compression stream_id file source r p) w
                  (inl (ground (arith, ap length none_left, good.0.ideal_least))) in
              (q, rw (goes, turn) l, x, y)
          | inr e ↦
              let w =
                chunk-Stage C compression stream_id file source t₀ i left fits seq law content r p s
                  good.0 g k size small e v in
              let n = r.ideal - overhead p in
              let some_room : 0 < n = ground (arith, good.0.ideal_least) in
              let o = positive-length p.unread (nonempty-take n p.unread e) in
              let fewer : length p.unread < length (r ∷ rounds) = elim m [
                | inl eof ↦ absurd (ground arith)
                | inr h ↦ h
              ] in
              let turn = file_turn-chunk C compression stream_id file source r p good.0 e in
              let (q, l, x, y) =
                complete content s g k size small rounds good.1
                  (after_turn C compression stream_id file source r p) w
                  (inr (omega (arith, length-drop n p.unread, some_room, o, fewer))) in
              (q, rw (goes, turn) l, x, y)
        ]
  ]

module _ {F : Floating} (C : Compressor) (compression : Bool) (stream_id : ℕ) (file : File)
    (source : FileSource) (t₀ : Transfer F) (i left : ℕ) where
  send_file-blocks :
      (content : Octets) (rounds : List FileRound) (q : Progress)
      → source.content ≡ some content
      → file_loop C compression stream_id file source rounds
          (record { unread = content; eof = false; sent = 0; blocks = [] })
        ≡ ok q
      → send_file C compression stream_id file source rounds ≡ ok q.blocks
  unfolding send_file
  send_file-blocks content rounds q opens l = ground (arith, opens, l)

  -- With what becomes of the other files on the receiver's disk.
  pub send_file-Delivered :
      (content : Octets) (s : FileStream) (rounds : List FileRound)
      → Restores C
      → Fits source
      → file.bar_id < 10
      → source.content ≡ some content
      → file.file_sz ≡ length content
      → 0 < length content
      → length content < 2 ^ 31
      → get_elem? t₀.streams i ≡ some s
      → t₀.config.num_files ≡ pos (suc left)
      → AllGood rounds
      → length content < length rounds
      → (blocks : List (Octets × Bool)) × (send_file C compression stream_id file source rounds
          ≡ ok blocks)
        × (t : Transfer F) × (received C i blocks t₀ ≡ ok t)
        × Received i (written_name source) content true left t
        × ((other : Octets)
            → IsApart other (name_only source.name) (written_name source)
            → Keeps other t₀ t)
  send_file-Delivered content s rounds law fits seq opens size some_content small g k good enough =
      let (q, l, v, e) =
        complete C compression stream_id file source t₀ i left fits seq law content s g k size small
          rounds good (record { unread = content; eof = false; sent = 0; blocks = [] })
          (start C compression stream_id file source t₀ i left fits seq law content) (inr enough) in
      let all : v.whole ≡ content =
        sym (append-nil v.whole) ∙ ap (λ (x : Octets). v.whole ++ x) (sym e) ∙ v.parts in
      let length_all : length v.whole ≡ length content = ap length all in
      let sent_some : (q.sent == 0) ≡ false = ground (arith, v.counted, length_all, some_content) in
      let ended : Received i (written_name source) v.whole true left v.session =
        subst (λ (x : Octets). Received i (written_name source) v.whole (is_empty x) left v.session)
          e (v.begun sent_some) in
      (
        q.blocks,
        send_file-blocks content rounds q opens l,
        v.session,
        v.got,
        subst (λ (x : Octets). Received i (written_name source) x true left v.session) all ended,
        v.untouched,
      )

  -- A file that is not empty and below 2 GiB, sent with or without compression over rounds in which
  -- nothing fails and of which there are more than it has octets, is sent to its end; and a receiver
  -- that takes the blocks in their order, on a stream of its own and with files left to receive, has
  -- exactly the file's content under the name that was sent, has closed the file, and counts one file
  -- less. The compressor restores what it compresses. The file is one of the first ten, and its name
  -- and its extension fit the meta data and have no zero octet.
  pub send_file-delivered :
      (content : Octets) (s : FileStream) (rounds : List FileRound)
      → Restores C
      → Fits source
      → file.bar_id < 10
      → source.content ≡ some content
      → file.file_sz ≡ length content
      → 0 < length content
      → length content < 2 ^ 31
      → get_elem? t₀.streams i ≡ some s
      → t₀.config.num_files ≡ pos (suc left)
      → AllGood rounds
      → length content < length rounds
      → (blocks : List (Octets × Bool)) × (send_file C compression stream_id file source rounds
          ≡ ok blocks)
        × (t : Transfer F) × (received C i blocks t₀ ≡ ok t)
        × Received i (written_name source) content true left t
  send_file-delivered content s rounds law fits seq opens size some_content small g k good enough =
      let (blocks, e, t, got, r, kept) =
        send_file-Delivered content s rounds law fits seq opens size some_content small g k good
          enough in
      (blocks, e, t, got, r)
