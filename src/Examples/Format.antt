-- ===== src/Examples/Format.antt =====
-- Tests of the formats: headers, configurations, reports and file types.
use mathlib.Core.List.Perm
use bats_protocol_api.Stream.Header.Laws.{InRange as HeaderInRange}
use bats_protocol_api.Wire.Laws.{InRange}
use bats_protocol_api.Common.Config.{deserialize, serialize, hundredths}
use bats_protocol_api.FileExt.{file_ext_from_string, file_ext_table, file_ext_to_string, json}
use bats_protocol_api.Prelude.Floating.{thousandths}
use bats_protocol_api.Prelude.{◌++◌, ◌≡◌, [], some, arith}
use bats_protocol_api.Test.Messages.{control_header}
use bats_protocol_api.Examples.{header, config}
use bats_protocol_api.FileExt.Laws.{from_string-to_string}
use bats_protocol_api.Prelude.Int.{pos, wrap}
use bats_protocol_api.Common.Config.Laws.{deserialize-serialize}

in_range : InRange (control_header 77 4 2)
unfolding control_header
in_range = record {
  magic_fits = omega arith;
  id_fits = omega arith;
  action_fits = omega arith;
  streams_fit = omega arith;
  param0_fits = omega arith;
  param1_fits = omega arith;
  param2_fits = omega arith;
  param3_fits = omega arith;
}

header_in_range : HeaderInRange header
header_in_range = record {
  magic_fits = omega arith;
  identifier_fits = omega arith;
  seq_fits = omega arith;
  time_fits = omega arith;
  grp_id_fits = omega arith;
  last_fits = omega arith;
  ack_fits = omega arith;
  has_interval_fits = omega arith;
  reserved_fits = omega arith;
  interval_id_fits = omega arith;
}

deserialize-serialize_example :
    deserialize thousandths (serialize thousandths config ++ []) config
    ≡ some (record config {
      interval =
          thousandths.over
            (thousandths.of_nat (hundredths thousandths config.interval))
            (thousandths.literal 100 0);
      time =
          thousandths.over
            (thousandths.of_nat (hundredths thousandths config.time))
            (thousandths.literal 100 0);
      protocol = pos (wrap 256 config.protocol);
      is_reverse_enabled = config.is_reverse_enabled;
      port = pos (wrap 65536 config.port);
    })
deserialize-serialize_example = deserialize-serialize thousandths config config []

from_string-to_string_example :
    file_ext_from_string file_ext_table (file_ext_to_string file_ext_table json) ≡ json
from_string-to_string_example = from_string-to_string (Perm.refl file_ext_table) json (λ q. cc q)
