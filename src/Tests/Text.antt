-- ===== src/Tests/Text.antt =====
-- Examples for the texts: bytes, addresses, UUIDs, names and sequence numbers.
use blehostd.Prelude.{
  ◌+◌, ◌%◌, ◌≤◌, ◌≡◌, ◌≢◌, refl, [], ◌∷◌, Bytes, codes, arith, length, All, IsByte,
}
use blehostd.Prelude.Int.{pos}
use blehostd.Status.{ok, err, overread}
use blehostd.Parse.{parse_arg_byte_stream, parse_arg_mac}
use blehostd.Parse.Bounds.{parse_arg_byte_stream_bounds}
use blehostd.Parse.RoundTrip.{parse_arg_byte_stream-hex_str, parse_arg_mac-addr_str}
use blehostd.Hex.{hex_str, addr_str}
use blehostd.Hex.Fits.{hex_str-fits}
use blehostd.Proto.Maps
use blehostd.Proto.Names.{
  type_parse-type_rev_parse, adv_disc_mode, host_parse, host_parse-host_rev_parse,
}
use blehostd.Proto.Numbers.{seq_evt_min}
use blehostd.Seq.{next_evt_seq, after_calls, evt_period, next_evt_seq-after_calls}
use blehostd.Uuid.{process_uuid_string}
use blehostd.Uuid.InBounds.{process_uuid_string-ne-overread}
use blehostd.Tests.Data.{consts}

abbrev three : Bytes
three = 1 ∷ 255 ∷ 16 ∷ []

abbrev address : Bytes
address = 1 ∷ 2 ∷ 10 ∷ 255 ∷ 0 ∷ 16 ∷ []

parse_arg_byte_stream-hex_str_example : parse_arg_byte_stream (hex_str 15 three).0 3 ≡ ok three
parse_arg_byte_stream-hex_str_example =
    parse_arg_byte_stream-hex_str 15 3 three (omega arith) (omega arith)
      (omega arith, (omega arith, (omega arith, tt)))

parse_arg_mac-addr_str_example : parse_arg_mac (addr_str address) ≡ ok address
parse_arg_mac-addr_str_example =
    parse_arg_mac-addr_str address refl
      (omega arith, (omega arith, (omega arith, (omega arith, (omega arith, (omega arith, tt))))))

parse_arg_byte_stream_bounds_example : (length three ≤ 3) × All IsByte three
parse_arg_byte_stream_bounds_example =
    parse_arg_byte_stream_bounds (codes "0x01:0xff:0x10") 3 three
      (unfold parse_arg_byte_stream in refl)

hex_str-fits_example : length (hex_str 9 three).0 + 1 ≤ 9
hex_str-fits_example = hex_str-fits 9 three (omega arith)

type_parse-type_rev_parse_example : Maps.type_parse (codes "scan_evt") ≡ pos 2059
type_parse-type_rev_parse_example =
    type_parse-type_rev_parse (pos 2059) (codes "scan_evt") (unfold Maps.type_rev_parse in refl)

host_parse-host_rev_parse_example : host_parse consts adv_disc_mode (codes "ltd") ≡ pos 1
host_parse-host_rev_parse_example =
    host_parse-host_rev_parse consts adv_disc_mode (pos 1) (codes "ltd")
      (unfold Maps.adv_disc_mode_rev_parse in refl)

next_evt_seq-after_calls_example :
    (next_evt_seq (after_calls 300)).0 ≡ seq_evt_min + 300 % evt_period
next_evt_seq-after_calls_example = next_evt_seq-after_calls 300

process_uuid_string-ne-overread_example : process_uuid_string 37 (codes "0102-") ≢ err overread
process_uuid_string-ne-overread_example =
    process_uuid_string-ne-overread 37 (codes "0102-") (omega arith)
