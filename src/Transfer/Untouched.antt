-- ===== src/Transfer/Untouched.antt =====
-- The files that a block leaves alone at the receiver.

-- The name of the file for the hash.
use bats_protocol_api.Prelude.Octets.{Octets, codes, octets_eq, is_empty}
use bats_protocol_api.Transfer.Receiver.{
  append, write_file_sha256, truncate, finish_file, store, content_of, start_file, take_block,
  take_content, plain, handle_received_file_data,
}
use bats_protocol_api.Prelude.Floating.{Floating}
use bats_protocol_api.Prelude.{
  List, ◌++◌, ◌≡◌, arith, some, false, ◌∙◌, refl, Bool, if◌then◌else◌, ◌==◌, true, Bool-cases, not,
  ltb, ap, inl, leb, inr, ◌+◌, length, ◌%◌, ◌||◌, ◌^◌, drop, ℕ, get_elem?, ◌∷◌,
}
use bats_protocol_api.Transfer.{Transfer, FileStream, Compressor}
use bats_protocol_api.Transfer.Block.{
  BlockHeader, join_name, read_file_names, file_meta_size, encode_bk_header,
}
use bats_protocol_api.Prelude.Results.{
  Ensures, Result, Ensures-after, Ensures-mono, require, assertion, Ensures-if, out_of_bounds, ok,
  Ensures-bind, Ensures-at,
}
use bats_protocol_api.Transfer.Reception.{good_storage, IsSent, decode_bk_header-encode_bk_header}

abbrev pub sha256_name : Octets → Octets
sha256_name name = name ++ codes ".sha256sum"

-- A file with another name than the one that a first block writes to, and than its hash's.
abbrev pub IsApart : Octets → Octets → Octets → Type 0
IsApart other name w = (octets_eq other w ≡ false) × (octets_eq other (sha256_name name) ≡ false)

content_of-append_other :
    (other name octets : Octets) (disk : List (Octets × Octets))
    → octets_eq other name ≡ false
    → content_of other (append name octets disk) ≡ content_of other disk
unfolding append content_of
content_of-append_other other name octets disk h = rw h refl

content_of-truncate_other :
    (other name : Octets) (disk : List (Octets × Octets))
    → octets_eq other name ≡ false
    → content_of other (truncate name disk) ≡ content_of other disk
unfolding truncate content_of
content_of-truncate_other other name disk h = rw h refl

content_of-sha256_other :
    (other name meta : Octets) (disk : List (Octets × Octets))
    → octets_eq other name ≡ false
    → content_of other (write_file_sha256 name meta disk) ≡ content_of other disk
unfolding write_file_sha256
content_of-sha256_other other name meta disk h =
    content_of-append_other other name _ (truncate name disk) h
    ∙ content_of-truncate_other other name disk h

module _ {F : Floating} (other : Octets) where
  abbrev pub Keeps : Transfer F → Transfer F → Type 0
  Keeps t u = content_of other u.disk ≡ content_of other t.disk

  KeepsPair : Transfer F → FileStream × Transfer F → Type 0
  KeepsPair t r = Keeps t r.1

  finish_file-Keeps : (s : FileStream) (t : Transfer F) → KeepsPair t (finish_file s t)
  unfolding finish_file KeepsPair
  finish_file-Keeps s t = ground arith

  ended :
      (fin : Bool) (s : FileStream) (t u : Transfer F)
      → Keeps t u
      → KeepsPair t (if fin then finish_file s u else (s, u))
  unfolding KeepsPair
  ended true s t u k = finish_file-Keeps s u ∙ k
  ended false s t u k = k

  module _ (C : Compressor) (h : BlockHeader) (w : Octets) (apart : octets_eq other w ≡ false) where
    store-Keeps :
        (body octets : Octets) (s : FileStream) (t : Transfer F)
        → s.file_writer ≡ some w
        → Ensures (KeepsPair t) (store good_storage h body octets s t)
    unfolding store
    store-Keeps body octets s t e = rw e (
        Ensures-after (KeepsPair t) (require (ltb h.file_seq 10) assertion) _ λ done.
          ended (h.fin == 1)
            (record s {
              file_writer = some w;
              write_bytes = (s.write_bytes + length body) % 2 ^ 64;
            })
            t (record t { disk = append w octets t.disk })
            (content_of-append_other other w octets t.disk apart))

    take_content-Keeps :
        (body : Octets) (s : FileStream) (t : Transfer F)
        → s.file_writer ≡ some w
        → Ensures (KeepsPair t) (take_content C good_storage h body s t)
    unfolding take_content KeepsPair
    take_content-Keeps body s t e =
        Ensures-after (KeepsPair t) (require (not (is_empty body)) assertion) _ λ done.
          Ensures-if (KeepsPair t) (is_empty (plain C h body) || false) _ _ refl
            (store-Keeps body (plain C h body) s t e)

  mono :
      (t u : Transfer F) (r : Result (FileStream × Transfer F))
      → Keeps t u
      → Ensures (KeepsPair u) r
      → Ensures (KeepsPair t) r
  unfolding KeepsPair
  mono t u r k e = Ensures-mono (KeepsPair u) (KeepsPair t) r e λ a q. q ∙ k

  next-Keeps :
      (C : Compressor) (h : BlockHeader) (w body : Octets) (s : FileStream) (t : Transfer F)
      → octets_eq other w ≡ false
      → (h.syn == 1) ≡ false
      → s.file_writer ≡ some w
      → Ensures (KeepsPair t) (take_block C good_storage h body s t)
  unfolding take_block
  next-Keeps C h w body s t apart n e = rw n (take_content-Keeps C h w apart body s t e)

  start_file-Keeps :
      (h : BlockHeader) (meta n e : Octets) (s : FileStream) (t : Transfer F)
      → octets_eq other (sha256_name n) ≡ false
      → read_file_names meta ≡ (n, e)
      → KeepsPair t (start_file h meta s t)
        × ((start_file h meta s t).0.file_writer ≡ some (join_name n e))
        × ((start_file h meta s t).0.file_name ≡ join_name n e)
  unfolding start_file KeepsPair
  start_file-Keeps h meta n e s t apart q = elim (Bool-cases (h.has_sum == 1)) [
    | inl b ↦
        rw (q, b) (content_of-sha256_other other (sha256_name n) meta t.disk apart, refl, refl)
    | inr b ↦ rw (q, b) (refl, refl, refl)
  ]

  first-Keeps :
      (C : Compressor) (h : BlockHeader) (rest n e : Octets) (s : FileStream) (t : Transfer F)
      → IsApart other n (join_name n e)
      → (h.syn == 1) ≡ true
      → read_file_names rest ≡ (n, e)
      → Ensures (KeepsPair t) (take_block C good_storage h rest s t)
  unfolding take_block KeepsPair
  first-Keeps C h rest n e s t apart y q =
      let (k, w, name) = start_file-Keeps h rest n e s t apart.1 q in
      let r = start_file h rest s t in
      let u = record r.1 { disk = truncate r.0.file_name r.1.disk } in
      let kept : Keeps t u =
        content_of-truncate_other other r.0.file_name r.1.disk (ap (octets_eq other) name ∙ apart.0)
        ∙ k in
      rw y (
        Ensures-after (KeepsPair t) (require (leb file_meta_size (length rest)) out_of_bounds) _
          λ done.
            mono t u _ kept
              (take_content-Keeps C h (join_name n e) apart.0 (drop file_meta_size rest) r.0 u w))

  handled :
      (C : Compressor) (h : BlockHeader) (rest : Octets) (i : ℕ) (s : FileStream) (t : Transfer F)
      → IsSent h
      → get_elem? t.streams i ≡ some s
      → Ensures (KeepsPair t) (take_block C good_storage h rest s t)
      → Ensures (Keeps t) (handle_received_file_data C good_storage i (encode_bk_header h ∷ rest) t)
  unfolding handle_received_file_data KeepsPair
  handled C h rest i s t v g k =
      rw (g, handle_received_file_data, decode_bk_header-encode_bk_header h v)
        (Ensures-bind (KeepsPair t) (Keeps t) (take_block C good_storage h rest s t) _ k
          λ (a, b) q. q)

  -- A block behind the first of a file leaves every file alone but the one that the stream has open.
  pub handle_next-Keeps :
      (C : Compressor) (h : BlockHeader) (w body : Octets) (i : ℕ) (s : FileStream) (t : Transfer F)
      {u : Transfer F}
      → IsSent h
      → get_elem? t.streams i ≡ some s
      → octets_eq other w ≡ false
      → (h.syn == 1) ≡ false
      → s.file_writer ≡ some w
      → handle_received_file_data C good_storage i (encode_bk_header h ∷ body) t ≡ ok u
      → Keeps t u
  handle_next-Keeps C h w body i s t v g apart n e q =
      Ensures-at (Keeps t) _ (handled C h body i s t v g (next-Keeps C h w body s t apart n e)) q

  -- The first block of a file leaves every file alone but the one of its name and that of the hash.
  pub handle_first-Keeps :
      (C : Compressor) (h : BlockHeader) (rest n e : Octets) (i : ℕ) (s : FileStream)
      (t : Transfer F) {u : Transfer F}
      → IsSent h
      → get_elem? t.streams i ≡ some s
      → IsApart other n (join_name n e)
      → (h.syn == 1) ≡ true
      → read_file_names rest ≡ (n, e)
      → handle_received_file_data C good_storage i (encode_bk_header h ∷ rest) t ≡ ok u
      → Keeps t u
  handle_first-Keeps C h rest n e i s t v g apart y r q =
      Ensures-at (Keeps t) _ (handled C h rest i s t v g (first-Keeps C h rest n e s t apart y r)) q
