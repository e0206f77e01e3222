-- ===== src/Examples/Transfers.antt =====
-- Tests of the file transfer: names, a small file in two blocks, a large file, and the queue.
use bats_protocol_api.Compressor.Laws.{HasRoom}
use bats_protocol_api.Transfer.Arrivals.{written_name}
use bats_protocol_api.Transfer.Stages.{received}
use bats_protocol_api.Transfer.Sender.{FileTurn, transfer_thread}
use bats_protocol_api.Transfer.Files.{IsReady, AllOnDisk, transfer_thread-delivered}
use bats_protocol_api.Transfer.Untouched.{IsApart}
use bats_protocol_api.Prelude.{if◌then◌else◌, ltb}
use bats_protocol_api.Transfer.Sender.{
  file_block, FileSource, FileRound, payload, total_length, send_file, max_send_buf_sz,
}
use bats_protocol_api.Stream.Send.{wait_writable}
use bats_protocol_api.Prelude.Octets.{Octets, octets_eq}
use bats_protocol_api.Transfer.{Compressor, File, Transfer, new_stream}
use bats_protocol_api.Transfer.Block.{join_name, name_only, split_extension, extension}
use bats_protocol_api.Transfer.Delivery.{AllGood, send_file-delivered}
use bats_protocol_api.Prelude.{
  List, ◌≡◌, [], ◌∷◌, none, false, some, true, Bool, arith, refl, length, ◌≤◌, ℕ, suc, ◌+◌, zero,
}
use bats_protocol_api.Transfer.Names.{no_nul, Fits}
use bats_protocol_api.Transfer.Session.{Sizes, new_sending}
use bats_protocol_api.Retry.{retry}
use bats_protocol_api.Prelude.Floating.{thousandths}
use bats_protocol_api.Examples.{config, sending}
use bats_protocol_api.Transfer.Turns.{IsGood, Restores}
use bats_protocol_api.Transfer.Large.{file_block-unfinished}
use bats_protocol_api.Prelude.Int.{pos}
use bats_protocol_api.Prelude.Results.{ok, fault}
use bats_protocol_api.Test.{test_start}
use bats_protocol_api.Transfer.Reception.{Received}
use bats_protocol_api.Common.Config.{TestConfig}
use bats_protocol_api.Api.{validate_client_config, validate_files, any_exists}
use bats_protocol_api.Common.{is_reliable_protocol, role_file_sender, is_supported_protocol}
use bats_protocol_api.Api.Validation.{AllBelow, validate_client_config-AllBelow}
use bats_protocol_api.Compressor.{Density, compressor, compress, max_decompressed_buf_sz}
use bats_protocol_api.Compressor.Laws.{IsDensity, compressor-Restores}

abbrev good_round : FileRound
good_round = record {
  active = true;
  bad = false;
  failed = false;
  writable = true;
  waits = [];
  ideal = 363;
  has_stream = true;
  sending = sending;
}

is_good : IsGood good_round
unfolding wait_writable retry
is_good = record {
  runs = refl;
  becomes_writable = refl;
  sends = (true, refl);
  ideal_least = omega arith;
  ideal_most = omega arith;
}

abbrev notes : Octets
notes = 110 ∷ 46 ∷ 116 ∷ []

abbrev content : Octets
content = 1 ∷ 2 ∷ 3 ∷ 4 ∷ 5 ∷ []

abbrev file : File
file = record { bar_id = 0; file_sz = 5; path = notes }

abbrev source : FileSource
source = record { name = notes; hash = none; content = some content }

fits : Fits source
unfolding name_only extension split_extension no_nul
fits = record {
  name_fits = omega arith;
  extension_fits = omega arith;
  name_text = refl;
  extension_text = refl;
}

abbrev session : Transfer thousandths
session = record {
  config = record config { num_files = pos 1 };
  test_id = 77;
  ctrl_chn = none;
  state = test_start;
  has_printer = true;
  is_stopped = false;
  connector = false;
  streams = new_stream 0 ∷ [];
  pending = [];
  disk = [];
  calls = [];
}

abbrev plain_codec : Compressor
plain_codec = record { compress = λ n octets. []; decompress = λ octets. octets }

-- A library that compresses by leaving out a leading 1.
abbrev leave_out : Octets → Octets
leave_out (suc zero ∷ octets) = octets
leave_out _ = []

abbrev leaving_out : Density
leaving_out = record {
  compress_safe_size = λ n. n;
  decompress_safe_size = λ n. n;
  density_compress = λ from room. elim (leave_out from) [
    | [] ↦ none
    | octet ∷ octets ↦ if ltb room (length (octet ∷ octets)) then none else some (octet ∷ octets)
  ];
  density_decompress = λ from out. if ltb out (length from + 1) then none else some (1 ∷ from);
}

leaves_out : IsDensity leaving_out
leaves_out = record { restores = restores; in_room = in_room }
  where
    restores :
        (from to : Octets) (room out : ℕ)
        → leaving_out.density_compress from room ≡ some to
        → leaving_out.decompress_safe_size (length from) ≤ out
        → leaving_out.density_decompress to out ≡ some from
    restores [] to room out e h = cc
    restores (zero ∷ xs) to room out e h = cc
    restores (suc zero ∷ []) to room out e h = cc
    restores (suc zero ∷ x ∷ xs) to room out e h = ground arith
    restores (suc (suc n) ∷ xs) to room out e h = cc

    in_room :
        (from to : Octets) (room : ℕ)
        → leaving_out.density_compress from room ≡ some to
        → length to ≤ room
    in_room [] to room e = cc
    in_room (zero ∷ xs) to room e = cc
    in_room (suc zero ∷ []) to room e = cc
    in_room (suc zero ∷ x ∷ xs) to room e = ground arith
    in_room (suc (suc n) ∷ xs) to room e = cc

has_room : HasRoom leaving_out
has_room = record { for_original = λ n h. h; for_compressed = for_compressed }
  where
    for_compressed :
        (from to : Octets) (room : ℕ)
        → length from ≤ max_send_buf_sz
        → leaving_out.density_compress from room ≡ some to
        → leaving_out.decompress_safe_size (length to) ≤ max_decompressed_buf_sz
    for_compressed [] to room h e = cc
    for_compressed (zero ∷ xs) to room h e = cc
    for_compressed (suc zero ∷ []) to room h e = cc
    for_compressed (suc zero ∷ x ∷ xs) to room h e = ground arith
    for_compressed (suc (suc n) ∷ xs) to room h e = cc

abbrev codec : Compressor
codec = compressor leaving_out

compresses : codec.compress 100 content ≡ 2 ∷ 3 ∷ 4 ∷ 5 ∷ []
unfolding compressor compress
compresses = refl

codec-Restores : Restores codec
codec-Restores = compressor-Restores leaving_out leaves_out has_room

all_good :
    AllGood (good_round ∷ good_round ∷ good_round ∷ good_round ∷ good_round ∷ good_round ∷ [])
unfolding AllGood
all_good = (is_good, (is_good, (is_good, (is_good, (is_good, (is_good, tt))))))

send_file-delivered_example :
    (blocks : List (Octets × Bool)) × (send_file codec true 0 file source
        (good_round ∷ good_round ∷ good_round ∷ good_round ∷ good_round ∷ good_round ∷ [])
      ≡ ok blocks)
    × (t : Transfer thousandths) × (received codec 0 blocks session ≡ ok t)
    × Received 0 (written_name source) content true 0 t
send_file-delivered_example =
    send_file-delivered codec true 0 file source session 0 0 content (new_stream 0)
      (good_round ∷ good_round ∷ good_round ∷ good_round ∷ good_round ∷ good_round ∷ [])
      codec-Restores fits (omega arith) refl refl (omega arith) (omega arith) refl refl all_good
      (omega arith)

abbrev letters : Octets
letters = 109 ∷ 46 ∷ 116 ∷ []

abbrev letters_file : File
letters_file = record { bar_id = 1; file_sz = 4; path = letters }

abbrev letters_content : Octets
letters_content = 1 ∷ 9 ∷ 8 ∷ 7 ∷ []

abbrev letters_source : FileSource
letters_source = record { name = letters; hash = none; content = some letters_content }

letters_fit : Fits letters_source
unfolding name_only extension split_extension no_nul
letters_fit = record {
  name_fits = omega arith;
  extension_fits = omega arith;
  name_text = refl;
  extension_text = refl;
}

abbrev six_rounds : List FileRound
six_rounds = good_round ∷ good_round ∷ good_round ∷ good_round ∷ good_round ∷ good_round ∷ []

abbrev turn_for : FileSource → FileTurn
turn_for source = record { done = false; failed = false; source = source; rounds = six_rounds }

abbrev three_turns : List FileTurn
three_turns = turn_for source ∷ turn_for letters_source ∷ turn_for source ∷ []

abbrev two_files : List File
two_files = file ∷ letters_file ∷ []

abbrev two_contents : List Octets
two_contents = content ∷ letters_content ∷ []

abbrev session_for_two : Transfer thousandths
session_for_two = record session { config = record config { num_files = pos 2 } }

notes-IsReady : IsReady (turn_for source) file content
notes-IsReady = record {
  runs = refl;
  fits = fits;
  first_ten = omega arith;
  opens = refl;
  size = refl;
  nonempty = omega arith;
  small = omega arith;
  good = all_good;
  enough = omega arith;
}

letters-IsReady : IsReady (turn_for letters_source) letters_file letters_content
letters-IsReady = record {
  runs = refl;
  fits = letters_fit;
  first_ten = omega arith;
  opens = refl;
  size = refl;
  nonempty = omega arith;
  small = omega arith;
  good = all_good;
  enough = omega arith;
}

notes-IsApart :
    IsApart (written_name source) (name_only letters_source.name) (written_name letters_source)
unfolding join_name name_only extension split_extension
notes-IsApart = (refl, refl)

transfer_thread-delivered_example :
    (blocks : List (Octets × Bool)) × (transfer_thread codec true 0 three_turns two_files
      ≡ ok ([], (true, blocks)))
    × (t : Transfer thousandths) × (received codec 0 blocks session_for_two ≡ ok t)
    × AllOnDisk three_turns two_contents t.disk
    × (t.config.num_files ≡ pos 0)
transfer_thread-delivered_example =
    transfer_thread-delivered codec true 0 0 three_turns two_files two_contents 0 (new_stream 0)
      session_for_two codec-Restores (notes-IsReady, (letters-IsReady, refl))
      ((notes-IsApart, tt), (tt, tt)) refl refl

abbrev large_file : File
large_file = record { bar_id = 0; file_sz = 3000000000; path = notes }

large_block : Octets × Bool
large_block = elim (file_block plain_codec false 0 large_file source 100 5 content) [
  | ok r ↦ r
  | fault e ↦ ([], false)
]

makes_block :
    file_block plain_codec false 0 large_file source 100 5 content
    ≡ ok (large_block.0, large_block.1)
unfolding large_block file_block payload total_length
makes_block = refl

file_block-unfinished_example : large_block.1 ≡ false
file_block-unfinished_example =
    file_block-unfinished plain_codec false 0 large_file source 100 5 content makes_block
      (omega arith) (omega arith) (omega arith)

abbrev sizes : Sizes
sizes = λ path. some 7

-- A sender of two files, of which one can be read.
abbrev sending_config : TestConfig ℕ
sending_config = record config {
  protocol = pos 1;
  files = notes ∷ (120 ∷ []) ∷ [];
  role = role_file_sender;
}

abbrev there : Octets → Bool
there path = octets_eq path notes

is_valid : validate_client_config thousandths there sending_config ≡ true
unfolding validate_client_config validate_files any_exists is_supported_protocol
is_valid = refl

validate_client_config_example :
    (is_reliable_protocol (pos 1) ≡ true)
    × AllBelow 10 (new_sending {F = thousandths} sizes 77 sending_config).pending
    × (pos 2 ≡ pos 2)
    × (2 ≤ 2)
validate_client_config_example =
    validate_client_config-AllBelow thousandths there sizes 77 sending_config is_valid refl
      (omega arith) (omega arith)
