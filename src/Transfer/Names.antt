-- ===== src/Transfer/Names.antt =====
-- The name of a file from the sender's path to the receiver's disk.
use bats_protocol_api.Transfer.Sender.{has_hash}
use bats_protocol_api.Prelude.{ℕ}
use bats_protocol_api.Transfer.Sender.{read_hash}
use bats_protocol_api.Prelude.{Option, length-take, length-append, length-replicate}
-- Whether a text has no zero octet in it.
use bats_protocol_api.Prelude.Octets.{Octets, is_empty, le_octets}
use bats_protocol_api.Transfer.Block.{
  text_field, join_name, split_extension, until_nul, name_only, extension, dot, max_name_length,
  encode_meta, FileMeta, max_hash_length, max_extension_length, read_file_names, file_meta_size,
}
use bats_protocol_api.Prelude.{
  ℕ, length, Bool, ◌<◌, ◌≡◌, ◌≤◌, take, some, ◌-◌, true, none, ◌∷◌, suc, not, ◌++◌, arith,
  length-append, replicate, ◌==◌, ap, [], ◌∙◌, ◌&&◌, refl, zero, length-replicate, Option-cases,
  sym, inr, inl, ◌+◌, ◌*◌, append_assoc, drop, drop-append, ap₂, append-nil,
}
use bats_protocol_api.Transfer.Sender.{FileSource, meta_for}
use bats_protocol_api.Transfer.{File}

unfoldable pub no_nul : Octets → Bool
no_nul [] = true
no_nul (c ∷ cs) = not (c == 0) && no_nul cs

until_nul-append :
    (s : Octets) (k : ℕ) (rest : Octets)
    → no_nul s ≡ true
    → until_nul (s ++ (replicate (suc k) 0 ++ rest)) ≡ s
unfolding until_nul no_nul
until_nul-append [] k rest h = refl
until_nul-append (c ∷ cs) k rest h = ground (arith, until_nul-append cs k rest (ground arith))

take-all : (xs : Octets) (n : ℕ) → length xs ≤ n → take n xs ≡ xs
take-all [] zero h = refl
take-all [] (suc n) h = refl
take-all (x ∷ xs) zero h = absurd (omega arith)
take-all (x ∷ xs) (suc n) h = ap (◌∷◌ x) (take-all xs n (omega arith))

take-append : (xs ys : Octets) (n : ℕ) → length xs ≡ n → take n (xs ++ ys) ≡ xs
take-append [] ys zero h = refl
take-append [] ys (suc n) h = absurd (omega arith)
take-append (x ∷ xs) ys zero h = absurd (omega arith)
take-append (x ∷ xs) ys (suc n) h = ap (◌∷◌ x) (take-append xs ys n (omega arith))

text_field-short :
    (n : ℕ) (s : Octets) → length s < n → text_field n s ≡ s ++ replicate (n - length s) 0
unfolding text_field
text_field-short n s l = rw (take-all s (n - 1) (omega arith)) refl

pub length-text_field : (n : ℕ) (s : Octets) → length s < n → length (text_field n s) ≡ n
length-text_field n s l =
    ap length (text_field-short n s l)
    ∙ length-append s (replicate (n - length s) 0)
    ∙ (let filler : ℕ = 0 in omega (arith, length-replicate (n - length s) filler))

-- What strncpy put into a field is read back.
pub until_nul-text_field :
    (n : ℕ) (s rest : Octets)
    → length s < n
    → no_nul s ≡ true
    → until_nul (take n (text_field n s ++ rest)) ≡ s
until_nul-text_field n s rest l z =
    let k : n - length s ≡ suc (n - length s - 1) = omega arith in
    let whole : text_field n s ≡ s ++ (replicate (suc (n - length s - 1)) 0 ++ []) =
      text_field-short n s l
      ∙ ap (λ (m : ℕ). s ++ replicate m 0) k
      ∙ ap (λ (r : Octets). s ++ r) (sym (append-nil (replicate (suc (n - length s - 1)) 0))) in
    ap until_nul (take-append (text_field n s) rest n (length-text_field n s l) ∙ whole)
    ∙ until_nul-append s (n - length s - 1) [] z

-- A file name that does not end in a dot.
unfoldable pub ends_plain : Octets → Bool
ends_plain name = elim (split_extension name) [ none ↦ true | some (n, e) ↦ not (is_empty e) ]

split_extension_lem :
    (name n e : Octets) → split_extension name ≡ some (n, e) → n ++ (dot ∷ e) ≡ name
unfolding split_extension
split_extension_lem [] n e h = ground arith
split_extension_lem (c ∷ cs) n e h = elim (Option-cases (split_extension cs)) [
  | inr ((m, f), q) ↦ (let r = split_extension_lem cs m f q in ground (arith, r))
  | inl q ↦ ground arith
]

-- The name that the receiver puts together is the sender's, unless that ends in a dot.
pub join_name-split :
    (name : Octets) → ends_plain name ≡ true → join_name (name_only name) (extension name) ≡ name
unfolding join_name name_only extension ends_plain
join_name-split name h = elim (Option-cases (split_extension name)) [
  | inl q ↦ ground arith
  | inr (r, q) ↦ (let l = split_extension_lem name r.0 r.1 q in ground (arith, l))
]

-- What the fields of the meta data have room for.
pub record Fits (source : FileSource) : Type 0 where
  pub name_fits : length (name_only source.name) < max_name_length
  pub extension_fits : length (extension source.name) < max_extension_length
  pub name_text : no_nul (name_only source.name) ≡ true
  pub extension_text : no_nul (extension source.name) ≡ true

length-read_hash : (hash : Option Octets) → length (read_hash hash) ≡ max_hash_length
unfolding read_hash
length-read_hash none = refl
length-read_hash (some sum) =
    let n = length-take max_hash_length (sum ++ replicate max_hash_length 0) in
    let m = length-append sum (replicate max_hash_length 0) in
    omega (arith, n, m, length-replicate {A = ℕ} max_hash_length 0)

pub has_hash-bit : (hash : Option Octets) → has_hash hash < 2
unfolding has_hash
has_hash-bit none = omega arith
has_hash-bit (some sum) = ground arith

module _ (stream_id : ℕ) (file : File) (source : FileSource) (fits : Fits source) where
  abbrev meta : FileMeta
  meta = meta_for stream_id file source

  length-sum : length meta.sha256sum ≡ max_hash_length
  unfolding meta_for
  length-sum = length-read_hash source.hash

  front : Octets
  front =
      le_octets 8 meta.magic
      ++ (le_octets 8 meta.stream_identifier
          ++ (le_octets 8 (meta.compression + 8 * meta.reserved + 256 * meta.file_length)
              ++ meta.sha256sum))

  length-front : length front ≡ 88
  unfolding front le_octets
  length-front = omega (arith, length-sum)

  encode_meta-front :
      (rest : Octets)
      → encode_meta meta ++ rest ≡ front ++ (meta.file_name ++ (meta.file_extension ++ rest))
  unfolding encode_meta front le_octets
  encode_meta-front rest =
      ap
        (λ (x : Octets).
          le_octets 8 meta.magic
          ++ (le_octets 8 meta.stream_identifier
              ++ (le_octets 8 (meta.compression + 8 * meta.reserved + 256 * meta.file_length)
                  ++ x)))
        (append_assoc meta.sha256sum (meta.file_name ++ meta.file_extension) rest
          ∙ ap (λ (x : Octets). meta.sha256sum ++ x)
              (append_assoc meta.file_name meta.file_extension rest))

  length-name : length meta.file_name ≡ max_name_length
  unfolding meta_for
  length-name = length-text_field max_name_length (name_only source.name) fits.name_fits

  length-extension : length meta.file_extension ≡ max_extension_length
  unfolding meta_for
  length-extension =
      length-text_field max_extension_length (extension source.name) fits.extension_fits

  pub length-encode_meta : length (encode_meta meta) ≡ file_meta_size
  unfolding encode_meta le_octets
  length-encode_meta =
      let a = length-append meta.sha256sum (meta.file_name ++ meta.file_extension) in
      let b = length-append meta.file_name meta.file_extension in
      omega (arith, a, b, length-sum, length-name, length-extension)

  name_read :
      (rest : Octets)
      → until_nul (take max_name_length (drop 88 (encode_meta meta ++ rest)))
        ≡ name_only source.name
  unfolding meta_for
  name_read rest =
      ap (λ (x : Octets). until_nul (take max_name_length (drop 88 x))) (encode_meta-front rest)
      ∙ ap (λ (x : Octets). until_nul (take max_name_length x))
          (drop-append front (meta.file_name ++ (meta.file_extension ++ rest)) 88 length-front)
      ∙ until_nul-text_field max_name_length (name_only source.name) (meta.file_extension ++ rest)
          fits.name_fits fits.name_text

  extension_read :
      (rest : Octets)
      → until_nul (take max_extension_length (drop 344 (encode_meta meta ++ rest)))
        ≡ extension source.name
  unfolding meta_for
  extension_read rest =
      let l : length (front ++ meta.file_name) ≡ 344 =
        omega (arith, length-append front meta.file_name, length-front, length-name) in
      ap (λ (x : Octets). until_nul (take max_extension_length (drop 344 x)))
        (encode_meta-front rest
          ∙ sym (append_assoc front meta.file_name (meta.file_extension ++ rest)))
      ∙ ap (λ (x : Octets). until_nul (take max_extension_length x))
          (drop-append (front ++ meta.file_name) (meta.file_extension ++ rest) 344 l)
      ∙ until_nul-text_field max_extension_length (extension source.name) rest fits.extension_fits
          fits.extension_text

  pub read_file_names-encode_meta :
      (rest : Octets)
      → read_file_names (encode_meta meta ++ rest) ≡ (name_only source.name, extension source.name)
  unfolding read_file_names
  read_file_names-encode_meta rest =
      ap₂ (λ (a b : Octets). (a, b)) (name_read rest) (extension_read rest)
