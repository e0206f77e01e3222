-- ===== src/Transfer/Block.antt =====
-- example/iperf-bats/iperf_file_transfer.cc: struct file_bk_header and struct file_meta as they lie
-- in a block, and the names in them (ReadFileNames and its counterpart in the sending thread).

use bats_protocol_api.Prelude.{
  ℕ, take, ◌∷◌, if◌then◌else◌, none, ◌+◌, some, Option, ◌%◌, [], ◌==◌, drop, ◌*◌, ◌++◌, ◌/◌, ◌-◌,
  replicate, length,
}
use bats_protocol_api.Prelude.Octets.{Octets, le_octets, is_empty}

abbrev pub file_code : ℕ
file_code = 0xa1b2ffff626174

abbrev pub bk_header_size : ℕ
bk_header_size = 1

abbrev pub file_meta_size : ℕ
file_meta_size = 360

abbrev pub max_hash_length : ℕ
max_hash_length = 64

abbrev pub max_name_length : ℕ
max_name_length = 256

abbrev pub max_extension_length : ℕ
max_extension_length = 16

-- The bit fields are numbers below their width.
pub record BlockHeader : Type 0 where
  pub syn : ℕ
  pub fin : ℕ
  pub has_sum : ℕ
  pub has_comp : ℕ
  pub file_seq : ℕ

unfoldable pub encode_bk_header : BlockHeader → ℕ
encode_bk_header h = h.syn + 2 * h.fin + 4 * h.has_sum + 8 * h.has_comp + 16 * h.file_seq

unfoldable pub decode_bk_header : ℕ → BlockHeader
decode_bk_header b = record {
  syn = b % 2;
  fin = b / 2 % 2;
  has_sum = b / 4 % 2;
  has_comp = b / 8 % 2;
  file_seq = b / 16 % 16;
}

-- `compression` has 3 bits, `reserved` 5 and `file_length` 56; the last three are the arrays.
pub record FileMeta : Type 0 where
  pub magic : ℕ
  pub stream_identifier : ℕ
  pub compression : ℕ
  pub reserved : ℕ
  pub file_length : ℕ
  pub sha256sum : Octets
  pub file_name : Octets
  pub file_extension : Octets

unfoldable pub encode_meta : FileMeta → Octets
encode_meta m =
    le_octets 8 m.magic
    ++ (le_octets 8 m.stream_identifier
        ++ (le_octets 8 (m.compression + 8 * m.reserved + 256 * m.file_length)
            ++ (m.sha256sum ++ (m.file_name ++ m.file_extension))))

-- strncpy of at most `n - 1` octets into a zeroed array of `n`.
unfoldable pub text_field : ℕ → Octets → Octets
text_field n s = take (n - 1) s ++ replicate (n - length (take (n - 1) s)) 0

-- The octets before the first zero.
unfoldable pub until_nul : Octets → Octets
until_nul [] = []
until_nul (c ∷ cs) = if c == 0 then [] else c ∷ until_nul cs

-- ReadFileNames: the name and the extension, from a buffer that starts with the meta data.
unfoldable pub read_file_names : Octets → Octets × Octets
read_file_names meta = (
  until_nul (take max_name_length (drop 88 meta)),
  until_nul (take max_extension_length (drop 344 meta)),
)

abbrev pub dot : ℕ
dot = 46

-- `rfind('.')` and the two `substr`: the text before the last dot, and the one behind it.
unfoldable pub split_extension : Octets → Option (Octets × Octets)
split_extension [] = none
split_extension (c ∷ cs) = elim (split_extension cs) [
  | some (name, extension) ↦ some (c ∷ name, extension)
  | none ↦ if c == dot then some ([], cs) else none
]

-- The name and the extension that the sender puts into the meta data.
unfoldable pub name_only : Octets → Octets
name_only name = elim (split_extension name) [ none ↦ name | some (n, e) ↦ n ]

unfoldable pub extension : Octets → Octets
extension name = elim (split_extension name) [ none ↦ [] | some (n, e) ↦ e ]

-- The name under which the receiver writes.
unfoldable pub join_name : Octets → Octets → Octets
join_name name ext = if is_empty ext then name else name ++ (dot ∷ ext)
