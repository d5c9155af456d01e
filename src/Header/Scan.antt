-- ===== src/Header/Scan.antt =====
-- What `is >> std::hex >> size` accepts, and the numbers that it can return.
use tcpclient_server.Prelude.{
  ℕ, zero, suc, ◌<◌, ◌≡◌, refl, Bool, true, false, [], ◌∷◌, ◌++◌, some, Bytes, replicate, arith,
}
use tcpclient_server.Header.{
  size_mod, hex_digit, is_space, skip_spaces, digit_value, signed_value, read_sign, parse_header,
}

pub digit_value-hex_digit : (d : ℕ) → d < 16 → digit_value (hex_digit d) ≡ some d
unfolding digit_value hex_digit
digit_value-hex_digit d h = ground arith

-- Every number that is read is a `size_t`.
signed_value-lt : (minus : Bool) (s : Bytes) (n : ℕ) → signed_value minus s ≡ some n → n < size_mod
unfolding signed_value
signed_value-lt minus s n e = ground arith

read_sign-lt : (s : Bytes) (n : ℕ) → read_sign s ≡ some n → n < size_mod
unfolding read_sign
read_sign-lt [] n e = cc
read_sign-lt (c ∷ s) n e =
    ground
      (arith, signed_value-lt true s n, signed_value-lt false s n, signed_value-lt false (c ∷ s) n)

pub parse_header-lt : (s : Bytes) {n : ℕ} → parse_header s ≡ some n → n < size_mod
unfolding parse_header
parse_header-lt s {n} e = read_sign-lt (skip_spaces s) n e

pub skip_spaces-replicate :
    (k : ℕ) (s : Bytes) → skip_spaces (replicate k b' ' ++ s) ≡ skip_spaces s
unfolding skip_spaces is_space
skip_spaces-replicate zero s = refl
skip_spaces-replicate (suc k) s = skip_spaces-replicate k s
