-- ===== src/Transfer/Reception.antt =====
-- What one block of the sending thread does at the receiver, when the files open and take their
-- content.
use bats_protocol_api.Transfer.Receiver.{
  Storage, truncate, append, content_of, store, finish_file, take_block, take_content, plain,
  start_file, handle_received_file_data,
}
use bats_protocol_api.Transfer.Block.{
  decode_bk_header, BlockHeader, encode_bk_header, file_meta_size, read_file_names, join_name,
}
use bats_protocol_api.Prelude.Floating.{Floating}
use bats_protocol_api.Prelude.{
  true, ◌<◌, Bool, false, ◌≡◌, List, ℕ, [], ◌++◌, arith, refl, if◌then◌else◌, some, none, suc, ◌==◌,
  ltb, lt→ltb, Bool-cases, inl, inr, sym, zero, ◌+◌, length, ◌%◌, ◌^◌, leb, length-append, drop,
  drop-append, ◌∙◌, ap, get_elem?, set, ◌∷◌, get_elem?-set,
}
use bats_protocol_api.Prelude.Octets.{Octets, octets_eq_iff, is_empty}
use bats_protocol_api.Transfer.{FileStream, Transfer, Compressor}
use bats_protocol_api.Prelude.Int.{pos, ◌-ℤ◌}
use bats_protocol_api.Prelude.Results.{ok}

abbrev pub good_storage : Storage
good_storage = record { opens = true; bad = false }

-- Every field fits its width, and the number is one that the progress bars have room for.
pub record IsSent (h : BlockHeader) : Type 0 where
  pub syn_fits : h.syn < 2
  pub fin_fits : h.fin < 2
  pub sum_fits : h.has_sum < 2
  pub comp_fits : h.has_comp < 2
  pub seq_fits : h.file_seq < 10

pub decode_bk_header-encode_bk_header :
    (h : BlockHeader) → IsSent h → decode_bk_header (encode_bk_header h) ≡ h
unfolding decode_bk_header encode_bk_header
decode_bk_header-encode_bk_header h v = ground arith

content_of-append :
    (name octets : Octets) (disk : List (Octets × Octets))
    → content_of name (append name octets disk) ≡ content_of name disk ++ octets
unfolding append content_of
content_of-append name octets disk = rw ((octets_eq_iff name name).1 refl) refl

content_of-truncate :
    (name : Octets) (disk : List (Octets × Octets)) → content_of name (truncate name disk) ≡ []
unfolding truncate content_of
content_of-truncate name disk = rw ((octets_eq_iff name name).1 refl) refl

module _ {F : Floating} where
  -- The stream and the session behind a block: what is stored, and whether the file is closed.
  pub record After (name whole : Octets) (fin : Bool) (left : ℕ) (streams : List FileStream)
      (s : FileStream) (t : Transfer F) : Type 0 where
    pub on_disk : content_of name t.disk ≡ whole
    pub writer : s.file_writer ≡ (if fin then none else some name)
    pub files : t.config.num_files ≡ (if fin then pos left else pos (suc left))
    pub others : t.streams ≡ streams

  finish_file-After :
      (name : Octets) (s : FileStream) (t : Transfer F) (left : ℕ)
      → t.config.num_files ≡ pos (suc left)
      → After name
          (content_of name t.disk)
          true
          left
          t.streams
          (finish_file s t).0
          (finish_file s t).1
  unfolding finish_file ◌-ℤ◌
  finish_file-After name s t zero n = record {
    on_disk = ground (arith, n);
    writer = refl;
    files = ground (arith, n);
    others = ground (arith, n);
  }
  finish_file-After name s t (suc left) n = record {
    on_disk = ground (arith, n);
    writer = refl;
    files = ground (arith, n);
    others = ground (arith, n);
  }

  stored :
      BlockHeader → Octets → Octets → Octets → FileStream → Transfer F → FileStream × Transfer F
  stored h body chunk name s t =
      let u = record t { disk = append name chunk t.disk } in
      let v = record s { write_bytes = (s.write_bytes + length body) % 2 ^ 64 } in
      if h.fin == 1 then finish_file v u else (v, u)

  stored-After :
      (h : BlockHeader) (body chunk name : Octets) (s : FileStream) (t : Transfer F) (left : ℕ)
      → s.file_writer ≡ some name
      → t.config.num_files ≡ pos (suc left)
      → After name
          (content_of name t.disk ++ chunk)
          (h.fin == 1)
          left
          t.streams
          (stored h body chunk name s t).0
          (stored h body chunk name s t).1
  unfolding stored
  stored-After h body chunk name s t left w n = elim (Bool-cases (h.fin == 1)) [
    | inl f ↦
        rw (f, sym (content_of-append name chunk t.disk))
          (finish_file-After name
            (record s { write_bytes = (s.write_bytes + length body) % 2 ^ 64 })
            (record t { disk = append name chunk t.disk }) left n)
    | inr f ↦ rw (f) (record {
      on_disk = content_of-append name chunk t.disk;
      writer = w;
      files = n;
      others = refl;
    })
  ]

  store-stored :
      (h : BlockHeader) (body chunk name : Octets) (s : FileStream) (t : Transfer F)
      → s.file_writer ≡ some name
      → h.file_seq < 10
      → store good_storage h body chunk s t ≡ ok (stored h body chunk name s t)
  unfolding store stored
  store-stored h body chunk name s t w q =
      let b : ltb h.file_seq 10 ≡ true = lt→ltb h.file_seq 10 q in rw (w, b) refl

  take_content-stored :
      (C : Compressor) (h : BlockHeader) (body chunk name : Octets) (s : FileStream)
      (t : Transfer F)
      → s.file_writer ≡ some name
      → h.file_seq < 10
      → plain C h body ≡ chunk
      → is_empty body ≡ false
      → is_empty chunk ≡ false
      → take_content C good_storage h body s t ≡ ok (stored h body chunk name s t)
  unfolding take_content
  take_content-stored C h body chunk name s t w q z b e =
      rw (b, z, e) (store-stored h body chunk name s t w q)

  -- A block behind the first of a file.
  pub take_next :
      (C : Compressor) (h : BlockHeader) (body chunk name : Octets) (s : FileStream)
      (t : Transfer F) (left : ℕ)
      → IsSent h
      → h.syn ≡ 0
      → s.file_writer ≡ some name
      → t.config.num_files ≡ pos (suc left)
      → plain C h body ≡ chunk
      → is_empty body ≡ false
      → is_empty chunk ≡ false
      → (r : FileStream × Transfer F) × (take_block C good_storage h body s t ≡ ok r)
        × After name (content_of name t.disk ++ chunk) (h.fin == 1) left t.streams r.0 r.1
  unfolding take_block
  take_next C h body chunk name s t left v y w k z b e =
      let not_first : (h.syn == 1) ≡ false = ground arith in
      (
        stored h body chunk name s t,
        rw not_first (take_content-stored C h body chunk name s t w v.seq_fits z b e),
        stored-After h body chunk name s t left w k,
      )

  opened : BlockHeader → Octets → FileStream → Transfer F → FileStream × Transfer F
  opened h meta s t =
      let r = start_file h meta s t in (r.0, record r.1 { disk = truncate r.0.file_name r.1.disk })

  opened_lem :
      (h : BlockHeader) (meta n e : Octets) (s : FileStream) (t : Transfer F)
      → read_file_names meta ≡ (n, e)
      → let r = opened h meta s t in
        (r.0.file_writer ≡ some (join_name n e))
        × (content_of (join_name n e) r.1.disk ≡ [])
        × (r.1.config.num_files ≡ t.config.num_files)
        × (r.1.streams ≡ t.streams)
  unfolding opened start_file
  opened_lem h meta n e s t q = elim (Bool-cases (h.has_sum == 1)) [
    | inl b ↦ rw (q, b) (refl, content_of-truncate _ _, refl, refl)
    | inr b ↦ rw (q, b) (refl, content_of-truncate _ _, refl, refl)
  ]

  -- The first block of a file: its meta data, then content.
  pub take_first :
      (C : Compressor) (h : BlockHeader) (meta body chunk n e : Octets) (s : FileStream)
      (t : Transfer F) (left : ℕ)
      → IsSent h
      → h.syn ≡ 1
      → length meta ≡ file_meta_size
      → read_file_names (meta ++ body) ≡ (n, e)
      → t.config.num_files ≡ pos (suc left)
      → plain C h body ≡ chunk
      → is_empty body ≡ false
      → is_empty chunk ≡ false
      → (r : FileStream × Transfer F) × (take_block C good_storage h (meta ++ body) s t ≡ ok r)
        × After (join_name n e) chunk (h.fin == 1) left t.streams r.0 r.1
  unfolding take_block opened
  take_first C h meta body chunk n e s t left v y l q k z b x =
      let o = opened h (meta ++ body) s t in
      let (w, c, f, g) = opened_lem h (meta ++ body) n e s t q in
      let first : (h.syn == 1) ≡ true = ground arith in
      let long : leb file_meta_size (length (meta ++ body)) ≡ true =
        ground (arith, length-append meta body) in
      let behind : drop file_meta_size (meta ++ body) ≡ body =
        drop-append meta body file_meta_size l in
      let a = stored-After h body chunk (join_name n e) o.0 o.1 left w (f ∙ k) in
      (
        stored h body chunk (join_name n e) o.0 o.1,
        rw (first, long, behind)
            (take_content-stored C h body chunk (join_name n e) o.0 o.1 w v.seq_fits z b x),
        record {
          on_disk = a.on_disk ∙ ap (λ (x : Octets). x ++ chunk) c;
          writer = a.writer;
          files = a.files;
          others = a.others ∙ g;
        },
      )

  -- The session behind a block for the stream at place `i`.
  pub record Received (i : ℕ) (name whole : Octets) (fin : Bool) (left : ℕ) (t : Transfer F)
      : Type 0 where
    pub stream : FileStream
    pub there : get_elem? t.streams i ≡ some stream
    pub on_disk : content_of name t.disk ≡ whole
    pub writer : stream.file_writer ≡ (if fin then none else some name)
    pub files : t.config.num_files ≡ (if fin then pos left else pos (suc left))

  pub handle_received_file_data-Received :
      (C : Compressor) (h : BlockHeader) (rest name whole : Octets) (i left : ℕ) (s : FileStream)
      (t : Transfer F)
      → IsSent h
      → get_elem? t.streams i ≡ some s
      → (r : FileStream × Transfer F) × (take_block C good_storage h rest s t ≡ ok r)
        × After name whole (h.fin == 1) left t.streams r.0 r.1
      → (u : Transfer F) × (handle_received_file_data C good_storage i (encode_bk_header h ∷ rest) t
          ≡ ok u)
        × Received i name whole (h.fin == 1) left u
  unfolding handle_received_file_data
  handle_received_file_data-Received C h rest name whole i left s t v g ((u, w), e, a) =
      let d = decode_bk_header-encode_bk_header h v in
      (
        record w { streams = set w.streams i u },
        ground (arith, g, d, e),
        record {
          stream = u;
          there =
              get_elem?-set w.streams i s u
                (ap (λ (l : List FileStream). get_elem? l i) a.others ∙ g);
          on_disk = a.on_disk;
          writer = a.writer;
          files = a.files;
        },
      )
