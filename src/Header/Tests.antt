-- ===== src/Header/Tests.antt =====
-- Headers of concrete sizes.
use tcpclient_server.Prelude.{◌≤◌, ◌<◌, ◌^◌, ◌≡◌, refl, ◌⊎◌, Bytes, codes, length, some, none}
use tcpclient_server.Header.{header_length, format_header, parse_header, to_hex, setw}
use tcpclient_server.Header.RoundTrip.{parse-format_header}

header_2021 : format_header 2021 ≡ some (codes "     7e5")
unfolding format_header to_hex setw
header_2021 = refl

header_minus_one : parse_header (codes "      -1") ≡ some 18446744073709551615
unfolding parse_header
header_minus_one = refl

header_prefixed : parse_header (codes "    0x1F") ≡ some 31
unfolding parse_header
header_prefixed = refl

header_no_number : parse_header (codes "GET / HT") ≡ none
unfolding parse_header
header_no_number = refl

parse-format_header_example :
    ((2021 < 2 ^ 32)
      × ((h : Bytes) × (format_header 2021 ≡ some h)
          × (length h ≡ header_length)
          × (parse_header h ≡ some 2021)))
    ⊎ ((2 ^ 32 ≤ 2021) × (format_header 2021 ≡ none))
parse-format_header_example = parse-format_header 2021
