-- ===== src/Compressor/Laws.antt =====
-- What the file transfer relies on in the compressor.
use bats_protocol_api.Compressor.{
  Density, compressor, compress, decompress, max_decompressed_buf_sz,
}
use bats_protocol_api.Prelude.Octets.{Octets, is_empty}
use bats_protocol_api.Prelude.{
  ℕ, ◌≡◌, length, ◌≤◌, some, Option-cases, ap, false, ◌∙◌, inl, arith, sym, inr,
}
use bats_protocol_api.Transfer.Turns.{Restores}
use bats_protocol_api.Transfer.Sender.{max_send_buf_sz}

-- What is assumed of the density library: a result that it wrote is restored to what it was made
-- from, in a buffer that is safe for the size of the original, which is the number that
-- `density_decompress_safe_size` takes; and it does not write more than the buffer has room for.
pub record IsDensity (D : Density) : Type 0 where
  pub restores :
      (from to : Octets) (room out : ℕ)
      → D.density_compress from room ≡ some to
      → D.decompress_safe_size (length from) ≤ out
      → D.density_decompress to out ≡ some from
  pub in_room :
      (from to : Octets) (room : ℕ) → D.density_compress from room ≡ some to → length to ≤ room

-- The receiver's buffer is safe for each chunk that a block can hold, and passes the test of
-- Decompress, which looks at the safe size for the compressed length instead.
pub record HasRoom (D : Density) : Type 0 where
  pub for_original :
      (n : ℕ) → n ≤ max_send_buf_sz → D.decompress_safe_size n ≤ max_decompressed_buf_sz
  pub for_compressed :
      (from to : Octets) (room : ℕ)
      → length from ≤ max_send_buf_sz
      → D.density_compress from room ≡ some to
      → D.decompress_safe_size (length to) ≤ max_decompressed_buf_sz

module _ (D : Density) (law : IsDensity D) (has_room : HasRoom D) where
  -- Compress does not write past the end of its buffer.
  pub length-compress : (from : Octets) (room : ℕ) → length (compress D from room) ≤ room
  unfolding compress
  length-compress from room = elim (Option-cases (D.density_compress from room)) [
    | inl e ↦ ground (arith, e)
    | inr (to, e) ↦ ground (arith, e, law.in_room from to room e)
  ]

  nonempty_only :
      (from : Octets) (room : ℕ)
      → is_empty (compress D from room) ≡ false
      → (to : Octets) × (D.density_compress from room ≡ some to) × (compress D from room ≡ to)
  unfolding compress
  nonempty_only from room h = elim (Option-cases (D.density_compress from room)) [
    | inl e ↦ absurd (ground (arith, e))
    | inr (to, e) ↦ (to, e, ground (arith, e))
  ]

  decompressed :
      (from to : Octets) (room : ℕ)
      → length from ≤ max_send_buf_sz
      → is_empty to ≡ false
      → D.density_compress from room ≡ some to
      → decompress D to max_decompressed_buf_sz ≡ from
  unfolding decompress
  decompressed from to room small h e =
      let fits = has_room.for_compressed from to room small e in
      let back =
        law.restores from to room max_decompressed_buf_sz e
          (has_room.for_original (length from) small) in
      ground (arith, h, fits, back)

  -- With such a library and such sizes the compressor gives back every chunk that a block can hold, wherever it
  -- compressed it, whatever room it had.
  pub decompress-compress :
      (room : ℕ) (chunk : Octets)
      → length chunk ≤ max_send_buf_sz
      → is_empty ((compressor D).compress room chunk) ≡ false
      → (compressor D).decompress ((compressor D).compress room chunk) ≡ chunk
  unfolding compressor
  decompress-compress room chunk small h =
      let (to, e, same) = nonempty_only chunk room h in
      ap (λ (x : Octets). decompress D x max_decompressed_buf_sz) same
      ∙ decompressed chunk to room small (ap is_empty (sym same) ∙ h) e

  -- What the delivery of a file relies on.
  pub compressor-Restores : Restores (compressor D)
  compressor-Restores = decompress-compress
