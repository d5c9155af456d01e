-- ===== src/DataScraper/RoundTrip.antt =====
-- A request that client_data.cpp prints is read back by the scraper.
use tcpclient_server.Prelude.{
  ℕ, ◌≡◌, refl, ◌⊎◌, inl, inr, arith, true, false, [], ◌∷◌, ◌++◌, Bytes, codes, replicate,
  append-nil,
}
use tcpclient_server.Errors.{Outcome, returns, throws, ◌>>=◌, bad_data_error}
use tcpclient_server.Header.{skip_spaces, is_space}
use tcpclient_server.Calculator.{
  Operation, nop, add, subtract, multiply, divide, undefined_op, ClientData, symbol,
}
use tcpclient_server.Calculator.Answer.{IsValidOp}
use tcpclient_server.DataScraper.{
  stream_on, Extract, get_item, check_item, extract_char, operation_of, parse_datum, is_nil,
}

-- Nothing follows a printed number, or a space.
abbrev pub IsDelimited : Bytes → Type 0
IsDelimited [] = Unit
IsDelimited (c ∷ s) = c ≡ b' '

-- `>>` into a number reads what `<<` printed of it, up to the precision of the print, behind any
-- number of spaces, and stops in front of what follows.
pub record IsText {A : Type 0} (extract : Extract A) (print : A → Bytes) (rounded : A → A)
    : Type 0 where
  pub reads :
      (lead : ℕ) (x : A) (rest : Bytes) (old : A)
      → IsDelimited rest
      → extract (stream_on (replicate lead b' ' ++ (print x ++ rest))) old
        ≡ (rounded x, record { rest = rest; eof = is_nil rest; fail_bit = false; bad = false })

module _ {F : Type 0} (print_int : ℕ → Bytes) (print_double : F → Bytes) where
  -- `operator<<` for `client_data`, without the end of its line.
  unfoldable pub print_datum : ClientData F → Bytes
  print_datum d =
      print_int d.id
      ++ (b' '
          ∷ (print_double d.operand1
              ++ (b' ' ∷ (symbol d.operation ++ (b' ' ∷ print_double d.operand2)))))

module _ {F : Type 0} (extract_int : Extract ℕ) (extract_double : Extract F) (print_int : ℕ → Bytes)
    (print_double : F → Bytes) (rounded : F → F) where
  get_item-print :
      {A : Type 0} (extract : Extract A) (print : A → Bytes) (round : A → A)
      (law : IsText extract print round) (lead : ℕ) (x : A) (rest : Bytes) (old : A)
      → IsDelimited rest
      → get_item extract (stream_on (replicate lead b' ' ++ (print x ++ rest))) old
        ≡ returns
            (round x, record { rest = rest; eof = is_nil rest; fail_bit = false; bad = false })
  unfolding get_item
  get_item-print extract print round law lead x rest old h =
      rw (law.reads lead x rest old h, get_item, check_item) refl

  get_item-char :
      (c : ℕ) (rest : Bytes) (old : ℕ)
      → is_space c ≡ false
      → get_item extract_char (stream_on (b' ' ∷ (c ∷ rest))) old ≡ returns (c, stream_on rest)
  unfolding get_item check_item extract_char skip_spaces
  get_item-char c rest old h =
      let space : is_space b' ' ≡ true = unfold is_space in refl in ground arith

  -- The end of a printed line, from the space in front of its operation on.
  after_operand : Operation → F → Bytes
  after_operand o y = b' ' ∷ (symbol o ++ (b' ' ∷ print_double y))

  parse-front :
      (d old : ClientData F) (op : ℕ)
      → IsText extract_int print_int (λ n. n)
      → IsText extract_double print_double rounded
      → parse_datum extract_int extract_double (print_datum print_int print_double d) old op ≡ do
        (op', is3) ← get_item extract_char (stream_on (after_operand d.operation d.operand2)) op
        operation ← operation_of op'
        (operand2, is4) ← get_item extract_double is3 old.operand2
        returns (record old {
          id = d.id;
          operand1 = rounded d.operand1;
          operation = operation;
          operand2 = operand2;
        })
  unfolding parse_datum print_datum after_operand
  parse-front d old op int_law double_law =
      rw
        (
          get_item-print extract_int print_int (λ n. n) int_law 0 d.id
              (b' ' ∷ (print_double d.operand1 ++ after_operand d.operation d.operand2)) old.id
              refl,
          get_item-print extract_double print_double rounded double_law 1 d.operand1
              (after_operand d.operation d.operand2) old.operand1 refl,
        )
        refl

  -- The operator's character and the second operand, for an operation with a symbol of one
  -- character.
  parse-back :
      (c : ℕ) (o : Operation) (y old : F) (op : ℕ) (build : Operation → F → ClientData F)
      → IsText extract_double print_double rounded
      → symbol o ≡ c ∷ []
      → is_space c ≡ false
      → operation_of c ≡ returns o
      → (do
        (op', is3) ← get_item extract_char (stream_on (after_operand o y)) op
        operation ← operation_of op'
        (operand2, is4) ← get_item extract_double is3 old
        returns (build operation operand2))
        ≡ returns (build o (rounded y))
  unfolding after_operand
  parse-back c o y old op build law e nospace eo =
      rw
        (
          e,
          get_item-char c (b' ' ∷ print_double y) op nospace,
          eo,
          ← append-nil (print_double y),
          get_item-print extract_double print_double rounded law 1 y [] old tt,
        )
        refl

  -- What the end of a printed line is read as.
  abbrev back : Operation → F → F → ℕ → (Operation → F → ClientData F) → Outcome (ClientData F)
  back o y old op build = do
    (op', is3) ← get_item extract_char (stream_on (after_operand o y)) op
    operation ← operation_of op'
    (operand2, is4) ← get_item extract_double is3 old
    returns (build operation operand2)

  parse-refused :
      (c : ℕ) (more : Bytes) (o : Operation) (y old : F) (op : ℕ)
      (build : Operation → F → ClientData F)
      → symbol o ≡ c ∷ more
      → is_space c ≡ false
      → operation_of c ≡ throws bad_data_error
      → back o y old op build ≡ throws bad_data_error
  unfolding after_operand
  parse-refused c more o y old op build e nospace eo =
      rw (e, get_item-char c (more ++ (b' ' ∷ print_double y)) op nospace, eo) refl

  parse-back-cases :
      (o : Operation) (y old : F) (op : ℕ) (build : Operation → F → ClientData F)
      → IsText extract_double print_double rounded
      → ((back o y old op build ≡ returns (build o (rounded y))) × IsValidOp o)
        ⊎ ((back o y old op build ≡ throws bad_data_error) × ¬ IsValidOp o)
  unfolding symbol is_space operation_of
  parse-back-cases add y old op build law =
      inl (parse-back b'+' add y old op build law refl refl refl, tt)
  parse-back-cases subtract y old op build law =
      inl (parse-back b'-' subtract y old op build law refl refl refl, tt)
  parse-back-cases multiply y old op build law =
      inl (parse-back b'*' multiply y old op build law refl refl refl, tt)
  parse-back-cases divide y old op build law =
      inl (parse-back b'/' divide y old op build law refl refl refl, tt)
  parse-back-cases nop y old op build law =
      inr (parse-refused b'N' (codes "OP") nop y old op build refl refl refl, λ h. h)
  parse-back-cases (undefined_op n) y old op build law =
      inr (
        parse-refused b'u' (codes "ndefined") (undefined_op n) y old op build refl refl refl,
        λ h. h,
      )

  -- A printed request is read back with its number and operation, and its operands up to the
  -- precision of the print, if its operation is valid; otherwise its line is refused.
  pub parse-print :
      (d old : ClientData F) (op : ℕ)
      → IsText extract_int print_int (λ n. n)
      → IsText extract_double print_double rounded
      → ((parse_datum extract_int extract_double (print_datum print_int print_double d) old op
            ≡ returns (record old {
              id = d.id;
              operand1 = rounded d.operand1;
              operation = d.operation;
              operand2 = rounded d.operand2;
            }))
          × IsValidOp d.operation)
        ⊎ ((parse_datum extract_int extract_double (print_datum print_int print_double d) old op
              ≡ throws bad_data_error)
            × ¬ IsValidOp d.operation)
  parse-print d old op int_law double_law = rw (parse-front d old op int_law double_law) (
      parse-back-cases d.operation d.operand2 old.operand2 op
        (λ o y. record old {
          id = d.id;
          operand1 = rounded d.operand1;
          operation = o;
          operand2 = y;
        })
        double_law)
