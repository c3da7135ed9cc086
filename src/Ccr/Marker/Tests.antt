-- ===== src/Ccr/Marker/Tests.antt =====
-- Runs of the markers.
use cachy.Text.Decimal.{print_int}
use cachy.Base.{◌≡◌, refl, true, false, arith, ok}
use cachy.Base.Int.{pos}
use cachy.Text.{equal, Bytes, codes}
use cachy.Ccr.Marker.{
  is_hex_digit, is_hex, Address, marker_version, is_valid_address, format_marker, render_marker,
  parse_marker, can_emit_marker,
}
use cachy.Ccr.Marker.RoundTrip.{parse-render}

abbrev sample_hex : Bytes
sample_hex = codes "00112233445566778899aabbccddeeff00112233445566778899aabbccddeeff"

abbrev sample : Address
sample = record { algorithm = codes "sha256"; hex = sample_hex; bytes = pos 1234 }

abbrev sample_marker : Bytes
sample_marker =
    codes
      "[[cachy-ccr:v1 sha256:00112233445566778899aabbccddeeff00112233445566778899aabbccddeeff bytes:1234]]"

sample-valid : is_valid_address sample ≡ true
unfolding is_valid_address equal is_hex is_hex_digit
sample-valid = refl

render_marker_run : render_marker sample ≡ ok sample_marker
unfolding render_marker is_valid_address format_marker equal is_hex is_hex_digit print_int
render_marker_run = refl

parse-render_example :
    parse_marker sample_marker ≡ ok (record { version = marker_version; address = sample })
parse-render_example = parse-render sample sample_marker render_marker_run (omega arith)

parse_marker_run :
    parse_marker sample_marker ≡ ok (record { version = marker_version; address = sample })
parse_marker_run = parse-render sample sample_marker render_marker_run (omega arith)

can_emit_marker_run :
    can_emit_marker (record { provider = codes "openai"; selected = true; stable = false }) ≡ true
unfolding can_emit_marker equal
can_emit_marker_run = refl
