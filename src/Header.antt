-- ===== src/Header.antt =====
-- The 8-byte header of a message in ClientServerFramework/Shared/Connection/Connection_base.hpp:
-- `std::setw(header_length) << std::hex << size` when it is written, and `is >> std::hex >> size`
-- when it is read back. Characters are their codes.
pub mod Format
pub mod Scan
pub mod RoundTrip
pub mod Tests
use tcpclient_server.Prelude.{
  ℕ, zero, suc, ◌+◌, ◌-◌, ◌*◌, ◌/◌, ◌%◌, ◌^◌, Bool, true, false, ◌&&◌, ◌||◌, not, List, [], ◌∷◌,
  ◌++◌, Option, none, some, Bytes, length, replicate, ltb, leb, ◌==◌, if◌then◌else◌,
}

-- `IO_base::header_length`.
abbrev pub header_length : ℕ
header_length = 8

abbrev pub size_mod : ℕ
size_mod = 2 ^ 64

-- `std::hex` writes lower-case digits.
pub hex_digit : ℕ → ℕ
hex_digit d = if ltb d 10 then b'0' + d else b'a' + (d - 10)

-- The digits of `n`, written in front of `out`; a `size_t` has 16 of them at most.
pub hex_onto : ℕ → ℕ → Bytes → Bytes
hex_onto zero n out = out
hex_onto (suc fuel) n out =
    let more = hex_onto fuel (n / 16) (hex_digit (n % 16) ∷ out) in
    if ltb n 16 then hex_digit n ∷ out else more

unfoldable pub to_hex : ℕ → Bytes
unfolding hex_onto hex_digit
to_hex n = hex_onto 16 n []

-- `std::setw(width)`: the fill character is a space and the text stands at the right; a longer text
-- is not cut.
unfoldable pub setw : ℕ → Bytes → Bytes
setw width s = replicate (width - length s) b' ' ++ s

-- The header of `size` bytes of data; `none` is the branch "Something went wrong".
unfoldable pub format_header : ℕ → Option Bytes
format_header size =
    let header = setw header_length (to_hex size) in
    if length header == header_length then some header else none

-- `std::isspace` in the "C" locale.
unfoldable pub is_space : ℕ → Bool
is_space c = c == b' ' || (leb 9 c && leb c 13)

unfoldable pub skip_spaces : Bytes → Bytes
skip_spaces [] = []
skip_spaces (c ∷ s) = if is_space c then skip_spaces s else c ∷ s

-- The value of a hexadecimal digit.
pub digit_value : ℕ → Option ℕ
digit_value c =
    if leb b'0' c && leb c b'9'
    then some (c - b'0')
    else if leb b'a' c && leb c b'f'
    then some (c - b'a' + 10)
    else if leb b'A' c && leb c b'F'
    then some (c - b'A' + 10)
    else none

-- The digits at the front, read behind the number `n`; `any` says whether there was a digit.
pub digits : Bytes → ℕ → Bool → Option ℕ
digits [] n any = if any then some n else none
digits (c ∷ s) n any =
    let stop = if any then some n else none in
    elim (digit_value c) [ none ↦ stop | some d ↦ digits s (n * 16 + d) true ]

-- `0x` or `0X` in front of the digits is passed over.
pub skip_prefix : Bytes → Bytes
skip_prefix [] = []
skip_prefix (c ∷ []) = c ∷ []
skip_prefix (c ∷ x ∷ s) = if c == b'0' && (x == b'x' || x == b'X') then s else c ∷ x ∷ s

-- `std::num_get` for an unsigned type: a number that is too large fails, and one behind a minus
-- sign is negated modulo 2^64.
pub signed_value : Bool → Bytes → Option ℕ
signed_value minus s = elim (digits (skip_prefix s) 0 false) [
  | none ↦ none
  | some n ↦ if ltb n size_mod then some (if minus then (size_mod - n) % size_mod else n) else none
]

pub read_sign : Bytes → Option ℕ
read_sign [] = none
read_sign (c ∷ s) =
    if c == b'-'
    then signed_value true s
    else if c == b'+'
    then signed_value false s
    else signed_value false (c ∷ s)

-- `handle_determine_data_size` on the header's characters: `none` is `false`.
unfoldable pub parse_header : Bytes → Option ℕ
unfolding read_sign signed_value skip_prefix digits digit_value skip_spaces is_space
parse_header s = read_sign (skip_spaces s)
