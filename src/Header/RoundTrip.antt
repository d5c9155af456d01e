-- ===== src/Header/RoundTrip.antt =====
-- The header that is written is read back as the size it stands for.
use native.Mathlib.Nat.{pow-suc}
use tcpclient_server.Prelude.{
  ℕ, zero, suc, ◌+◌, ◌-◌, ◌*◌, ◌/◌, ◌%◌, ◌^◌, ◌≤◌, ◌<◌, ◌≡◌, refl, ◌⊎◌, inl, inr, Bool, true, false,
  [], ◌∷◌, some, none, Bytes, length, arith, ltb, ◌∙◌, ltb→lt, ltb→le, Bool-cases,
}
use tcpclient_server.Header.{
  header_length, size_mod, hex_digit, hex_onto, to_hex, setw, format_header, is_space, skip_spaces,
  digits, skip_prefix, signed_value, read_sign, parse_header,
}
use tcpclient_server.Header.Format.{format_header-some, format_header-none, length-format_header}
use tcpclient_server.Header.Scan.{digit_value-hex_digit, skip_spaces-replicate}

abbrev IsHex : ℕ → Type 0
IsHex c = ((b'0' ≤ c) × (c ≤ b'9')) ⊎ ((b'a' ≤ c) × (c ≤ b'f'))

abbrev AllHex : Bytes → Type 0
AllHex [] = Unit
AllHex (c ∷ s) = IsHex c × AllHex s

hex_digit-IsHex : (d : ℕ) → d < 16 → IsHex (hex_digit d)
unfolding hex_digit
hex_digit-IsHex d h = ground arith

hex_onto-AllHex : (f n : ℕ) (out : Bytes) → AllHex out → AllHex (hex_onto f n out)
unfolding hex_onto
hex_onto-AllHex zero n out h = h
hex_onto-AllHex (suc f) n out h = ground (
  arith,
  hex_digit-IsHex n,
  hex_digit-IsHex (n % 16) (omega arith),
  hex_onto-AllHex f (n / 16) (hex_digit (n % 16) ∷ out),
)

to_hex-AllHex : (n : ℕ) → AllHex (to_hex n)
unfolding to_hex
to_hex-AllHex n = hex_onto-AllHex 16 n [] tt

skip_spaces-AllHex : (s : Bytes) → AllHex s → skip_spaces s ≡ s
unfolding skip_spaces is_space
skip_spaces-AllHex [] h = refl
skip_spaces-AllHex (c ∷ s) h = ground arith

read_sign-AllHex : (s : Bytes) → AllHex s → read_sign s ≡ signed_value false s
unfolding read_sign
read_sign-AllHex [] h = unfold signed_value skip_prefix digits in refl
read_sign-AllHex (c ∷ s) h = ground arith

skip_prefix-AllHex : (s : Bytes) → AllHex s → skip_prefix s ≡ s
unfolding skip_prefix
skip_prefix-AllHex [] h = refl
skip_prefix-AllHex (c ∷ []) h = refl
skip_prefix-AllHex (c ∷ x ∷ s) h = ground arith

digits-digit :
    (d n : ℕ) (s : Bytes) (any : Bool)
    → d < 16
    → digits (hex_digit d ∷ s) n any ≡ digits s (n * 16 + d) true
unfolding digits
digits-digit d n s any h = rw (digit_value-hex_digit d h, digits)

digits-hex_onto :
    (f n : ℕ) (out : Bytes)
    → n < 16 ^ suc f
    → digits (hex_onto (suc f) n out) 0 false ≡ digits out n true
unfolding hex_onto
digits-hex_onto zero n out h = ground (arith, digits-digit n 0 out false)
digits-hex_onto (suc f) n out h = ground (
  arith,
  digits-digit n 0 out false,
  digits-digit (n % 16) (n / 16) out true (omega arith),
  digits-hex_onto f (n / 16) (hex_digit (n % 16) ∷ out) (omega (arith, pow-suc 16 (suc f))),
)

digits-to_hex : (n : ℕ) → n < size_mod → digits (to_hex n) 0 false ≡ some n
unfolding to_hex
digits-to_hex n h = digits-hex_onto 15 n [] (omega arith) ∙ (unfold digits in refl)

signed_value-to_hex : (n : ℕ) → n < size_mod → signed_value false (to_hex n) ≡ some n
unfolding signed_value
signed_value-to_hex n h =
    ground (arith, skip_prefix-AllHex (to_hex n) (to_hex-AllHex n), digits-to_hex n h)

-- A size that is written in hexadecimal behind any number of spaces is read back.
pub parse_header-setw : (w n : ℕ) → n < size_mod → parse_header (setw w (to_hex n)) ≡ some n
unfolding parse_header setw
parse_header-setw w n h =
    let hex = to_hex-AllHex n in
    rw
      (
        skip_spaces-replicate (w - length (to_hex n)) (to_hex n),
        skip_spaces-AllHex (to_hex n) hex,
        read_sign-AllHex (to_hex n) hex,
      )
      (signed_value-to_hex n h)

-- For every data size: below 2^32 the header has exactly `header_length` characters and is read
-- back as that size, and from 2^32 on there is no header.
pub parse-format_header :
    (n : ℕ)
    → ((n < 2 ^ 32)
        × ((h : Bytes) × (format_header n ≡ some h)
            × (length h ≡ header_length)
            × (parse_header h ≡ some n)))
      ⊎ ((2 ^ 32 ≤ n) × (format_header n ≡ none))
parse-format_header n = elim (Bool-cases (ltb n (2 ^ 32))) [
  | inl lt ↦
      let small = ltb→lt n (2 ^ 32) lt in
      inl (
        small,
        (
          setw header_length (to_hex n),
          format_header-some n small,
          length-format_header n (format_header-some n small),
          parse_header-setw header_length n (omega arith),
        ),
      )
  | inr ge ↦ let large = ltb→le n (2 ^ 32) ge in inr (large, format_header-none n large)
]
