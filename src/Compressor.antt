-- ===== src/Compressor.antt =====
-- example/iperf-bats/iperf_compress_api.cc: class IperfCompressor, the checks around the calls of
-- the density library. The library is not in the repository.
pub mod Laws
-- The calls of density_api.h with the algorithm Chameleon: the two functions for safe sizes, and
-- the result in a buffer of the given size, none for a state other than DENSITY_STATE_OK.
use bats_protocol_api.Prelude.{Option, ℕ, if◌then◌else◌, [], some, none, ◌||◌, ◌==◌, ltb, length}
use bats_protocol_api.Prelude.Octets.{Octets, is_empty}
use bats_protocol_api.Transfer.{Compressor}

pub record Density : Type 0 where
  pub compress_safe_size : ℕ → ℕ
  pub decompress_safe_size : ℕ → ℕ
  pub density_compress : Octets → ℕ → Option Octets
  pub density_decompress : Octets → ℕ → Option Octets

abbrev pub written : Option Octets → Octets
written none = []
written (some octets) = octets

-- The size of `decompressed_buf` in iperf_file_transfer.h.
abbrev pub max_decompressed_buf_sz : ℕ
max_decompressed_buf_sz = 300000

module _ (D : Density) where
  open D use {compress_safe_size, decompress_safe_size, density_compress, density_decompress}

  -- The octets that are written to a buffer of `out_length` octets; none stand for the result 0.
  unfoldable pub compress : Octets → ℕ → Octets
  compress from out_length =
      if is_empty from || out_length == 0
      then []
      else if ltb out_length (compress_safe_size (length from))
      then []
      else written (density_compress from out_length)

  unfoldable pub decompress : Octets → ℕ → Octets
  decompress from out_length =
      if is_empty from || out_length == 0
      then []
      else if ltb out_length (decompress_safe_size (length from))
      then []
      else written (density_decompress from out_length)

  -- As the file transfer uses it.
  unfoldable pub compressor : Compressor
  compressor = record {
    compress = λ room chunk. compress chunk room;
    decompress = λ content. decompress content max_decompressed_buf_sz;
  }
