-- ===== src/Transfer/Stages.antt =====
-- How far a file has come: the receiver behind each turn of the sending thread.
use bats_protocol_api.Transfer.Arrivals.{
  written_name, first_block, next_block, block_header-IsSent, is_last-drop,
}
use bats_protocol_api.Transfer.Untouched.{Keeps, IsApart, handle_first-Keeps, handle_next-Keeps}
use bats_protocol_api.Prelude.Floating.{Floating}
use bats_protocol_api.Transfer.{Compressor, File, Transfer, FileStream}
use bats_protocol_api.Prelude.{
  ℕ, List, ◌<◌, Bool, ◌≡◌, ◌==◌, false, true, ◌++◌, ◌∷◌, arith, length, get_elem?, [], some, suc,
  refl, sym, ◌^◌, drop, ◌-◌, length-append, ap, take-append-drop, append_assoc, Bool-cases, inl,
  ◌∙◌, subst, inr, length-drop,
}
use bats_protocol_api.Transfer.Sender.{FileSource, Progress, FileRound, meta_for}
use bats_protocol_api.Prelude.Octets.{Octets, is_empty}
use bats_protocol_api.Transfer.Names.{Fits, read_file_names-encode_meta}
use bats_protocol_api.Transfer.Block.{
  name_only, extension, encode_bk_header, encode_meta, read_file_names,
}
use bats_protocol_api.Prelude.Results.{Result, ok, ◌>>=◌}
use bats_protocol_api.Transfer.Reception.{Received, good_storage}
use bats_protocol_api.Transfer.Turns.{
  block_header, chunk, rest_of_block, is_last, after_turn, overhead, IsGood, at_end, Restores,
  sent_body,
}
use bats_protocol_api.Transfer.Receiver.{handle_received_file_data}
use bats_protocol_api.Prelude.Int.{pos}
use bats_protocol_api.Transfer.Chunks.{
  nil-length, empty-take, bit_back, positive-length, read-le, nonempty-take, drop-nil,
}

module _ {F : Floating} (C : Compressor) (i : ℕ) where
  -- The session at the receiver behind the blocks, of which the last one sent stands first.
  unfoldable pub received : List (Octets × Bool) → Transfer F → Result (Transfer F)
  received [] t₀ = ok t₀
  received (b ∷ older) t₀ = do
    t ← received older t₀
    handle_received_file_data C good_storage i b.0 t

module _ {F : Floating} (C : Compressor) (compression : Bool) (stream_id : ℕ) (file : File)
    (source : FileSource) (t₀ : Transfer F) (i left : ℕ) where
  -- How far the file has come: the receiver has all that was read, and the last block closed it.
  pub record Stage (content : Octets) (p : Progress) : Type 0 where
    pub session : Transfer F
    pub whole : Octets
    pub got : received C i p.blocks t₀ ≡ ok session
    pub parts : whole ++ p.unread ≡ content
    pub counted : p.sent ≡ length whole
    pub at_eof : p.eof ≡ true → p.unread ≡ []
    pub fresh : (p.sent == 0) ≡ true → session ≡ t₀
    pub untouched :
        (other : Octets)
        → IsApart other (name_only source.name) (written_name source)
        → Keeps other t₀ session
    pub begun :
        (p.sent == 0) ≡ false
        → Received i (written_name source) whole (is_empty p.unread) left session

module _ {F : Floating} (C : Compressor) (compression : Bool) (stream_id : ℕ) (file : File)
    (source : FileSource) (t₀ : Transfer F) (i left : ℕ) (fits : Fits source)
    (seq : file.bar_id < 10) (law : Restores C) where
  -- The receiver behind the block of a turn.
  arrived :
      (content : Octets) (r : FileRound) (p : Progress) (s : FileStream)
      (v : Stage C compression stream_id file source t₀ i left content p)
      → IsGood r
      → get_elem? t₀.streams i ≡ some s
      → t₀.config.num_files ≡ pos (suc left)
      → is_empty (chunk r p) ≡ false
      → (u : Transfer F) × (handle_received_file_data C good_storage i
            (encode_bk_header (block_header C compression stream_id file source r p)
              ∷ rest_of_block C compression stream_id file source r p)
            v.session
          ≡ ok u)
        × Received i
            (written_name source)
            (v.whole ++ chunk r p)
            ((block_header C compression stream_id file source r p).fin == 1)
            left
            u
  arrived content r p s v good g k e = elim (Bool-cases (p.sent == 0)) [
    | inl z ↦
        (let none_yet : v.whole ≡ [] = nil-length v.whole (ground (arith, v.counted, z)) in
          rw (none_yet, v.fresh z)
            (first_block C compression stream_id file source t₀ i left fits seq law r p s good z g k
              e))
    | inr z ↦
        next_block C compression stream_id file source t₀ i left fits seq law r p v.session v.whole
          good z
          (subst (λ (b : Bool). Received i (written_name source) v.whole b left v.session)
            (nonempty-take (r.ideal - overhead p) p.unread e) (v.begun z))
          e
  ]

  -- The other files on the disk are as they were.
  arrived-Keeps :
      (content : Octets) (r : FileRound) (p : Progress) (s : FileStream)
      (v : Stage C compression stream_id file source t₀ i left content p) (other : Octets)
      {u : Transfer F}
      → IsApart other (name_only source.name) (written_name source)
      → get_elem? t₀.streams i ≡ some s
      → is_empty (chunk r p) ≡ false
      → handle_received_file_data C good_storage i
          (encode_bk_header (block_header C compression stream_id file source r p)
            ∷ rest_of_block C compression stream_id file source r p)
          v.session
        ≡ ok u
      → Keeps other v.session u
  arrived-Keeps content r p s v other {u} apart g e q =
      let h = block_header C compression stream_id file source r p in
      let rest = rest_of_block C compression stream_id file source r p in
      let w = block_header-IsSent C compression stream_id file source t₀ i left fits seq law r p in
      elim (Bool-cases (p.sent == 0)) [
        | inl z ↦
            let b = (sent_body C compression stream_id file source r p).0 in
            let m = encode_meta (meta_for stream_id file source) in
            let whole : rest ≡ m ++ b = rw z refl in
            let names = read_file_names-encode_meta stream_id file source fits b in
            let there : get_elem? v.session.streams i ≡ some s =
              ap (λ (t : Transfer F). get_elem? t.streams i) (v.fresh z) ∙ g in
            handle_first-Keeps other C h rest (name_only source.name) (extension source.name) i s
              v.session w there apart (rw z refl) (ap read_file_names whole ∙ names) q
        | inr z ↦
            let x =
              subst (λ (b : Bool). Received i (written_name source) v.whole b left v.session)
                (nonempty-take (r.ideal - overhead p) p.unread e) (v.begun z) in
            handle_next-Keeps other C h (written_name source) rest i x.stream v.session w x.there
              apart.0 (rw z refl) x.writer q
      ]

  pub chunk-Stage :
      (content : Octets) (r : FileRound) (p : Progress) (s : FileStream)
      → IsGood r
      → get_elem? t₀.streams i ≡ some s
      → t₀.config.num_files ≡ pos (suc left)
      → file.file_sz ≡ length content
      → length content < 2 ^ 31
      → is_empty (chunk r p) ≡ false
      → Stage C compression stream_id file source t₀ i left content p
      → Stage C compression stream_id file source t₀ i left content
          (after_turn C compression stream_id file source r p)
  unfolding received
  chunk-Stage content r p s good g k size small e v =
      let (u, h, w) = arrived content r p s v good g k e in
      let n = r.ideal - overhead p in
      let l =
        is_last-drop C compression stream_id file source t₀ i left fits seq law content v.whole r p
          v.parts v.counted size small in
      let f : ((block_header C compression stream_id file source r p).fin == 1)
          ≡ is_empty (drop n p.unread) =
        bit_back (is_last C compression stream_id file source r p) ∙ l in
      let a = length-append v.whole (chunk r p) in
      let b = read-le content v.whole p.unread n v.parts in
      let o = positive-length (chunk r p) e in
      record {
        session = u;
        whole = v.whole ++ chunk r p;
        got = rw (v.got) h;
        parts =
            append_assoc v.whole (chunk r p) (drop n p.unread)
            ∙ ap (λ (x : Octets). v.whole ++ x) (take-append-drop n p.unread)
            ∙ v.parts;
        counted = omega (arith, a, v.counted, b, small);
        at_eof = λ q. nil-length (drop n p.unread) (ground (arith, q, length-drop n p.unread));
        fresh = λ q. absurd (ground (arith, q, b, o, v.counted, small));
        untouched = λ other apart.
            arrived-Keeps content r p s v other apart g e h ∙ v.untouched other apart;
        begun = λ z.
            subst (λ (b : Bool). Received i (written_name source) (v.whole ++ chunk r p) b left u) f
              w;
      }

  pub end-Stage :
      (content : Octets) (r : FileRound) (p : Progress)
      → IsGood r
      → is_empty (chunk r p) ≡ true
      → Stage C compression stream_id file source t₀ i left content p
      → (p.unread ≡ [])
        × Stage C compression stream_id file source t₀ i left content
            (at_end C compression stream_id file source r p)
  end-Stage content r p good e v =
      let n = r.ideal - overhead p in
      let some_room : 0 < n = ground (arith, good.ideal_least) in
      let none_left : p.unread ≡ [] = empty-take n p.unread some_room e in
      let same : drop n p.unread ≡ p.unread = rw none_left (drop-nil n) in
      (
        none_left,
        record {
          session = v.session;
          whole = v.whole;
          got = v.got;
          parts = ap (λ (x : Octets). v.whole ++ x) same ∙ v.parts;
          counted = v.counted;
          at_eof = λ q. same ∙ none_left;
          fresh = v.fresh;
          untouched = v.untouched;
          begun = λ z.
              subst
                (λ (x : Octets).
                  Received i (written_name source) v.whole (is_empty x) left v.session)
                (sym same) (v.begun z);
        },
      )

  pub start :
      (content : Octets)
      → Stage C compression stream_id file source t₀ i left content
          (record { unread = content; eof = false; sent = 0; blocks = [] })
  unfolding received
  start content = record {
    session = t₀;
    whole = [];
    got = refl;
    parts = refl;
    counted = refl;
    at_eof = λ q. absurd (ground arith);
    fresh = λ q. refl;
    untouched = λ other apart. refl;
    begun = λ q. absurd (ground arith);
  }
