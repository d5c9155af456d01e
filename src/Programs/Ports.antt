-- ===== src/Programs/Ports.antt =====
-- Which port the server listens on.
use tcpclient_server.Prelude.{
  ℕ, ◌%◌, ◌≤◌, ◌<◌, ◌^◌, ◌≡◌, ◌⊎◌, inl, inr, ◌∷◌, Bytes, arith, ap, ltb, ltb→lt, ltb→le, Bool-cases,
}
use tcpclient_server.Errors.{returns, undefined}
use tcpclient_server.Atoi.Digits.{AllDigits, value, atoi-digits, atoi-name}
use tcpclient_server.Programs.{listen_port}

mod_small : (n : ℕ) → n < 2 ^ 16 → n % 2 ^ 16 ≡ n
mod_small n h = omega arith

-- An argument of decimal digits: below 2^16 the server listens on that port, although it keeps the
-- port in a signed 16-bit number; from there to below 2^31 it listens, without complaint, on the
-- remainder modulo 2^16; and from 2^31 on its behaviour is undefined.
pub listen_port_bounds :
    (s : Bytes)
    → AllDigits s
    → ((value s < 2 ^ 16) × (listen_port s ≡ returns (value s)))
      ⊎ ((2 ^ 16 ≤ value s) × (value s < 2 ^ 31) × (listen_port s ≡ returns (value s % 2 ^ 16)))
      ⊎ ((2 ^ 31 ≤ value s) × (listen_port s ≡ undefined))
unfolding listen_port
listen_port_bounds s h = elim (atoi-digits s h) [
  | inl (small, e) ↦ elim (Bool-cases (ltb (value s) (2 ^ 16))) [
    | inl fits ↦ inl (
      ltb→lt (value s) (2 ^ 16) fits,
      rw e (ap returns (mod_small (value s) (ltb→lt (value s) (2 ^ 16) fits))),
    )
    | inr wraps ↦ inr (inl (ltb→le (value s) (2 ^ 16) wraps, small, rw e))
  ]
  | inr (large, e) ↦ inr (inr (large, rw e))
]

-- A name in place of a number stands for port 0, by which the operating system chooses any port.
pub listen_port-name : (c : ℕ) (s : Bytes) → b'9' < c → listen_port (c ∷ s) ≡ returns 0
unfolding listen_port
listen_port-name c s h = rw (atoi-name c s h)
