-- ===== src/Atoi/Digits.antt =====
-- What `atoi` makes of a decimal number, and of a text that is none.
use tcpclient_server.Prelude.{
  ℕ, suc, ◌+◌, ◌-◌, ◌*◌, ◌≤◌, ◌<◌, ◌^◌, ◌≡◌, refl, ◌∙◌, ap, sym, ◌⊎◌, inl, inr, arith, true, false,
  [], ◌∷◌, Bytes, length, ltb, Bool-cases, ltb→lt,
}
use tcpclient_server.Errors.{returns, undefined}
use tcpclient_server.Header.{skip_spaces, is_space}
use tcpclient_server.Atoi.{is_digit, decimal, int_of, signed, atoi}

abbrev pub AllDigits : Bytes → Type 0
AllDigits [] = Unit
AllDigits (c ∷ s) = (is_digit c ≡ true) × AllDigits s

-- The number that decimal digits stand for, by their places.
abbrev pub value : Bytes → ℕ
value [] = 0
value (c ∷ s) = (c - b'0') * 10 ^ length s + value s

place : (n d p v : ℕ) → (n * 10 + d) * p + v ≡ n * (10 * p) + (d * p + v)
place n d p v = grind arith

ten_pow : (k : ℕ) → 10 ^ suc k ≡ 10 * 10 ^ k
ten_pow k = grind arith

decimal-value : (s : Bytes) (n : ℕ) → AllDigits s → decimal s n ≡ n * 10 ^ length s + value s
unfolding decimal
decimal-value [] n h = omega arith
decimal-value (c ∷ s) n h =
    rw (h.0, decimal)
      (decimal-value s (n * 10 + (c - b'0')) h.1
        ∙ place n (c - b'0') (10 ^ length s) (value s)
        ∙ ap (λ p. n * p + value (c ∷ s)) (sym (ten_pow (length s))))

int_of-cases :
    (n : ℕ)
    → ((n < 2 ^ 31) × (int_of false n ≡ returns n)) ⊎ ((2 ^ 31 ≤ n) × (int_of false n ≡ undefined))
unfolding int_of
int_of-cases n = elim (Bool-cases (ltb n (2 ^ 31))) [
  | inl lt ↦ inl (ltb→lt n (2 ^ 31) lt, rw lt)
  | inr ge ↦ inr (ground arith, rw ge)
]

-- A digit is no space and no sign.
atoi-digit :
    (c : ℕ) (s : Bytes) → is_digit c ≡ true → atoi (c ∷ s) ≡ int_of false (decimal (c ∷ s) 0)
unfolding atoi signed skip_spaces is_space
atoi-digit c s h = ground arith

-- Digits that are an `int`'s value are read as that value, and the behaviour is undefined for
-- others.
pub atoi-digits :
    (s : Bytes)
    → AllDigits s
    → ((value s < 2 ^ 31) × (atoi s ≡ returns (value s)))
      ⊎ ((2 ^ 31 ≤ value s) × (atoi s ≡ undefined))
atoi-digits [] h = inl (omega arith, unfold atoi in refl)
atoi-digits (c ∷ s) h =
    let e : decimal (c ∷ s) 0 ≡ value (c ∷ s) = decimal-value (c ∷ s) 0 h ∙ omega arith in
    rw (atoi-digit c s h.0, e) (int_of-cases (value (c ∷ s)))

-- A text that begins with neither a space, nor a sign, nor a digit is read as 0.
pub atoi-name : (c : ℕ) (s : Bytes) → b'9' < c → atoi (c ∷ s) ≡ returns 0
unfolding atoi signed skip_spaces is_space decimal int_of
atoi-name c s h = ground arith
