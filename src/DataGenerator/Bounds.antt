-- ===== src/DataGenerator/Bounds.antt =====
-- How many requests the generator makes, and when its counter overflows.
use tcpclient_server.Prelude.{
  ℕ, zero, suc, ◌+◌, ◌-◌, ◌≤◌, ◌<◌, ◌^◌, ◌≡◌, refl, ◌⊎◌, inl, inr, arith, true, false, [], ◌∷◌,
  Bytes, some, ltb, leb, ◌==◌, Bool-cases, ltb→lt, lt→ltb, ltb→le,
}
use tcpclient_server.Errors.{returns, undefined}
use tcpclient_server.Atoi.Digits.{AllDigits, value, atoi-digits}
use tcpclient_server.DataGenerator.{
  Draw, generate, request_loop, unsigned_of, makes, generator_main,
}

module _ {F : Type 0} (draw : ℕ → Draw F) (size : ℕ) where
  request_loop-generate :
      (fuel i n : ℕ)
      → size < 2 ^ 31 - 1
      → i + n ≡ size + 1
      → n < fuel
      → request_loop fuel draw i size ≡ some (returns (generate draw n i))
  unfolding request_loop generate
  request_loop-generate zero i n small e h = absurd (omega arith)
  request_loop-generate (suc fuel) i zero small e h =
      let stop : leb i size ≡ false = ground arith in rw stop refl
  request_loop-generate (suc fuel) i (suc n) small e h =
      let go : leb i size ≡ true = ground arith in
      let fits : (i + 1 == 2 ^ 31) ≡ false = ground arith in
      rw (go, fits, request_loop-generate fuel (i + 1) n small (omega arith) (omega arith)) refl

  request_loop-undefined :
      (fuel i n : ℕ)
      → 2 ^ 31 - 1 ≤ size
      → i + n ≡ 2 ^ 31 - 1
      → n < fuel
      → request_loop fuel draw i size ≡ some undefined
  unfolding request_loop
  request_loop-undefined zero i n large e h = absurd (omega arith)
  request_loop-undefined (suc fuel) i zero large e h =
      let go : leb i size ≡ true = ground arith in
      let last : (i + 1 == 2 ^ 31) ≡ true = ground arith in rw (go, last) refl
  request_loop-undefined (suc fuel) i (suc n) large e h =
      let go : leb i size ≡ true = ground arith in
      let fits : (i + 1 == 2 ^ 31) ≡ false = ground arith in
      rw (go, fits, request_loop-undefined fuel (i + 1) n large (omega arith) (omega arith)) refl

  -- The loop ends for every size: with one request for each number up to it, or by an overflow.
  pub request_loop_bounds :
      ((size < 2 ^ 31 - 1)
        × (request_loop (suc size) draw 1 size ≡ some (returns (generate draw size 1))))
      ⊎ ((2 ^ 31 - 1 ≤ size) × (request_loop (suc size) draw 1 size ≡ some undefined))
  request_loop_bounds = elim (Bool-cases (ltb size (2 ^ 31 - 1))) [
    | inl lt ↦
        let small = ltb→lt size (2 ^ 31 - 1) lt in
        inl (small, request_loop-generate (suc size) 1 size small (omega arith) (omega arith))
    | inr ge ↦
        let large = ltb→le size (2 ^ 31 - 1) ge in
        inr (
          large,
          request_loop-undefined (suc size) 1 (2 ^ 31 - 2) large (omega arith) (omega arith),
        )
  ]

module _ {F : Type 0} (random : ℕ → F → ℕ → Draw F) (default_seed : ℕ) (default_sigma : F)
    (atof : Bytes → F) where
  -- A size below 2^31 - 1 is the number of requests that the program makes, numbered from 1; for
  -- the last `int` its counter overflows behind the last request; and a larger size is no `int`.
  pub generator_main_bounds :
      (program s : Bytes)
      → AllDigits s
      → ((value s < 2 ^ 31 - 1)
          × (generator_main random default_seed default_sigma atof (program ∷ s ∷ [])
              ≡ makes (
                  returns
                    (some (returns (generate (random default_seed default_sigma) (value s) 1))))))
        ⊎ ((value s ≡ 2 ^ 31 - 1)
            × (generator_main random default_seed default_sigma atof (program ∷ s ∷ [])
                ≡ makes (returns (some undefined))))
        ⊎ ((2 ^ 31 ≤ value s)
            × (generator_main random default_seed default_sigma atof (program ∷ s ∷ [])
                ≡ makes undefined))
  unfolding generator_main
  generator_main_bounds program s h = elim (atoi-digits s h) [
    | inr (large, e) ↦ inr (inr (large, rw e))
    | inl (int, e) ↦
        let same : unsigned_of (value s) ≡ value s =
          rw (lt→ltb (value s) (2 ^ 31) int, unsigned_of) refl in
        elim (request_loop_bounds (random default_seed default_sigma) (value s)) [
          | inl (small, made) ↦ inl (small, rw (e, same, made))
          | inr (large, over) ↦ inr (inl (omega arith, rw (e, same, over)))
        ]
  ]
