-- ===== src/Atoi.antt =====
-- `std::atoi`, which Calculator-TCPServer.cpp and DataGenerator.cpp of ClientServerCalculator apply
-- to their arguments. An `int` is its bit pattern, a number below 2^32.
pub mod Digits
use tcpclient_server.Prelude.{
  ℕ, ◌+◌, ◌-◌, ◌*◌, ◌%◌, ◌^◌, Bool, true, false, ◌&&◌, List, [], ◌∷◌, Bytes, ltb, leb, ◌==◌,
  if◌then◌else◌,
}
use tcpclient_server.Errors.{Outcome, returns, undefined}
use tcpclient_server.Header.{skip_spaces}

abbrev pub is_digit : ℕ → Bool
is_digit c = leb b'0' c && leb c b'9'

-- The digits at the front, read behind the number `n`.
pub decimal : Bytes → ℕ → ℕ
decimal [] n = n
decimal (c ∷ s) n = if is_digit c then decimal s (n * 10 + (c - b'0')) else n

-- A number that an `int` cannot hold makes the behaviour undefined.
pub int_of : Bool → ℕ → Outcome ℕ
int_of minus n =
    if ltb n (2 ^ 31)
    then returns (if minus then (2 ^ 32 - n) % 2 ^ 32 else n)
    else if minus && n == 2 ^ 31
    then returns n
    else undefined

pub signed : Bytes → Outcome ℕ
unfolding decimal int_of
signed [] = returns 0
signed (c ∷ s) =
    if c == b'-'
    then int_of true (decimal s 0)
    else if c == b'+'
    then int_of false (decimal s 0)
    else int_of false (decimal (c ∷ s) 0)

unfoldable pub atoi : Bytes → Outcome ℕ
unfolding signed skip_spaces
atoi s = signed (skip_spaces s)
