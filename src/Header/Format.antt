-- ===== src/Header/Format.antt =====
-- What `std::setw(header_length) << std::hex << size` writes, and which sizes have a header.
use native.Mathlib.Nat.{pow-suc, one-le-pow}
use tcpclient_server.Prelude.{
  ℕ, zero, suc, ◌+◌, ◌-◌, ◌/◌, ◌%◌, ◌^◌, ◌≤◌, ◌<◌, ◌≡◌, [], ◌∷◌, some, none, Bytes, length,
  length-append, length-replicate, replicate, arith,
}
use tcpclient_server.Header.{header_length, hex_digit, hex_onto, to_hex, setw, format_header}

length-hex_onto-ge : (f n : ℕ) (out : Bytes) → length out ≤ length (hex_onto f n out)
unfolding hex_onto
length-hex_onto-ge zero n out = omega arith
length-hex_onto-ge (suc f) n out =
    ground (arith, length-hex_onto-ge f (n / 16) (hex_digit (n % 16) ∷ out))

sixteenth : (n k : ℕ) → n < 16 ^ suc (suc k) → n / 16 < 16 ^ suc k
sixteenth n k h = omega (arith, pow-suc 16 (suc k))

length-hex_onto-le :
    (f k n : ℕ) (out : Bytes) → n < 16 ^ suc k → length (hex_onto f n out) ≤ suc k + length out
unfolding hex_onto
length-hex_onto-le zero k n out h = omega arith
length-hex_onto-le (suc f) zero n out h = ground arith
length-hex_onto-le (suc f) (suc k) n out h =
    ground (arith, length-hex_onto-le f k (n / 16) (hex_digit (n % 16) ∷ out) (sixteenth n k h))

length-hex_onto-lower :
    (f k n : ℕ) (out : Bytes) → 16 ^ k ≤ n → k < f → suc k + length out ≤ length (hex_onto f n out)
unfolding hex_onto
length-hex_onto-lower zero k n out h lt = absurd (omega arith)
length-hex_onto-lower (suc f) zero n out h lt =
    ground (arith, length-hex_onto-ge f (n / 16) (hex_digit (n % 16) ∷ out))
length-hex_onto-lower (suc f) (suc k) n out h lt = ground (
  arith,
  pow-suc 16 k,
  one-le-pow k 16 (omega arith),
  length-hex_onto-lower f k (n / 16) (hex_digit (n % 16) ∷ out) (omega (arith, pow-suc 16 k)),
)

length-setw_short : (w : ℕ) (s : Bytes) → length s ≤ w → length (setw w s) ≡ w
unfolding setw
length-setw_short w s h = omega (
  arith,
  length-append (replicate (w - length s) b' ') s,
  length-replicate {A = ℕ} (w - length s) b' ',
)

length-setw_long : (w : ℕ) (s : Bytes) → w < length s → length (setw w s) ≡ length s
unfolding setw
length-setw_long w s h = omega (
  arith,
  length-append (replicate (w - length s) b' ') s,
  length-replicate {A = ℕ} (w - length s) b' ',
)

pub length-to_hex-le : (n : ℕ) → n < 2 ^ 32 → length (to_hex n) ≤ header_length
unfolding to_hex
length-to_hex-le n h = omega (arith, length-hex_onto-le 16 7 n [] h)

length-to_hex-gt : (n : ℕ) → 2 ^ 32 ≤ n → header_length < length (to_hex n)
unfolding to_hex
length-to_hex-gt n h = omega (arith, length-hex_onto-lower 16 8 n [] h (omega arith))

pub format_header-some :
    (n : ℕ) → n < 2 ^ 32 → format_header n ≡ some (setw header_length (to_hex n))
unfolding format_header
format_header-some n h =
    ground (arith, length-setw_short header_length (to_hex n) (length-to_hex-le n h))

pub format_header-none : (n : ℕ) → 2 ^ 32 ≤ n → format_header n ≡ none
unfolding format_header
format_header-none n h =
    ground (
      arith,
      length-setw_long header_length (to_hex n) (length-to_hex-gt n h),
      length-to_hex-gt n h,
    )

-- A header that is written always has `header_length` characters.
pub length-format_header : (n : ℕ) {h : Bytes} → format_header n ≡ some h → length h ≡ header_length
unfolding format_header
length-format_header n e = ground arith
