-- ===== src/Stream/Report/Exchange.antt =====
-- The reports and intervals that one side sends, as the other side reads them.
use bats_protocol_api.Prelude.{◌%◌, ◌<◌, ◌≡◌, some, ◌++◌, arith, drop, true}
use bats_protocol_api.Prelude.Octets.{Octets, le_octets, read_le}
use bats_protocol_api.Prelude.Results.{ok}
use bats_protocol_api.Prelude.Floating.{Floating}
use bats_protocol_api.Common.{TestInterval}
use bats_protocol_api.Stream.{Platform, IperfStream}
use bats_protocol_api.Stream.Report.{
  serialize_report, deserialize_report, serialize_interval, deserialize_interval, u64_mod,
}

-- A report in a summary starts with the identifier of its stream, when that fits 64 bits.
pub read_le-serialize_report :
    {P : Platform} (s : IperfStream P) (rest : Octets)
    → s.stream_identifier < u64_mod
    → read_le 8 (serialize_report s ++ rest) ≡ some s.stream_identifier
unfolding serialize_report read_le le_octets
read_le-serialize_report s rest h = ground arith

-- A report that is read behind its identifier gives the reading stream the bytes, the datagrams and
-- the rate, in hundredths, of the stream that wrote it, marks the summary as received, and leaves the
-- rest of the buffer, when both counts fit 64 bits.
pub deserialize_report-serialize_report :
    {P : Platform} (s t : IperfStream P) (rest : Octets)
    → s.sender_report.summary.bytes < u64_mod
    → s.sender_report.summary.datagrams < u64_mod
    → let open_rate =
        P.floating.to_nat (P.floating.times s.sender_report.summary.bitrate (P.floating.of_nat 100))
        % u64_mod in
      deserialize_report t (drop 8 (serialize_report s ++ rest))
      ≡ ok (
        record t {
          sender_report = record t.sender_report {
            summary = record t.sender_report.summary {
              bytes = s.sender_report.summary.bytes;
              datagrams = s.sender_report.summary.datagrams;
              bitrate = P.floating.over (P.floating.of_nat open_rate) (P.floating.literal 100 0);
            };
          };
          is_sum_received = true;
        },
        rest,
      )
unfolding serialize_report deserialize_report read_le le_octets
deserialize_report-serialize_report s t rest hb hd = ground arith

-- An interval that is sent with a block is read back with its bytes, datagrams and first sequence
-- number, when they fit 64 bits, and with its rate in hundredths.
pub deserialize_interval-serialize_interval :
    (F : Floating) (i fresh : TestInterval F.Float) (rest : Octets)
    → i.bytes < u64_mod
    → i.datagrams < u64_mod
    → i.start_seq < u64_mod
    → deserialize_interval F (serialize_interval F i ++ rest) fresh
      ≡ ok (record fresh {
        bytes = i.bytes;
        datagrams = i.datagrams;
        start_seq = i.start_seq;
        bitrate =
            F.over
              (F.of_nat (F.to_nat (F.times i.bitrate (F.of_nat 100)) % u64_mod))
              (F.literal 100 0);
      })
unfolding serialize_interval deserialize_interval read_le le_octets
deserialize_interval-serialize_interval F i fresh rest hb hd hs = ground arith
