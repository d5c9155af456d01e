-- ===== src/DataScraper/Valid.antt =====
-- The operation of a request that the scraper lets through, against what the server can answer.
use tcpclient_server.Prelude.{
  ℕ, suc, length, [], if◌then◌else◌, ◌≡◌, refl, arith, Bool, true, false, Bytes,
}
use tcpclient_server.Errors.{Outcome, returns, throws, undefined, ◌>>=◌}
use tcpclient_server.Calculator.{
  Operation, nop, add, subtract, multiply, divide, undefined_op, ClientData,
}
use tcpclient_server.Calculator.Answer.{IsValidOp}
use tcpclient_server.DataScraper.{
  Stream, Extract, get_item, extract_char, operation_of, stream_on, parse_datum, datum_of,
  get_datum, read_line, is_nil,
}

-- What a call ensures of the value that it returns, if it returns one.
abbrev pub Ensures : {A : Type 0} → (A → Type 0) → Outcome A → Type 0
Ensures P (returns a) = P a
Ensures P (throws e) = Unit
Ensures P undefined = Unit

>>=-Ensures :
    {A B : Type 0} (P : B → Type 0) (m : Outcome A) (f : A → Outcome B)
    → ((a : A) → m ≡ returns a → Ensures P (f a))
    → Ensures P (m >>= f)
>>=-Ensures P (returns a) f h = h a refl
>>=-Ensures P (throws e) f h = tt
>>=-Ensures P undefined f h = tt

if-Ensures :
    {A : Type 0} (P : A → Type 0) (b : Bool) (m n : Outcome A)
    → Ensures P m
    → Ensures P n
    → Ensures P (if b then m else n)
if-Ensures P true m n h k = h
if-Ensures P false m n h k = k

operation_of-IsValidOp : (c : ℕ) (o : Operation) → operation_of c ≡ returns o → IsValidOp o
unfolding operation_of
operation_of-IsValidOp c add h = tt
operation_of-IsValidOp c subtract h = tt
operation_of-IsValidOp c multiply h = tt
operation_of-IsValidOp c divide h = tt
operation_of-IsValidOp c nop h = ground arith
operation_of-IsValidOp c (undefined_op n) h = ground arith

abbrev pub HasValidOp : {F : Type 0} → ClientData F → Type 0
HasValidOp d = IsValidOp d.operation

module _ {F : Type 0} (extract_int : Extract ℕ) (extract_double : Extract F) where
  parse_datum-HasValidOp :
      (line : Bytes) (d : ClientData F) (op : ℕ)
      → Ensures HasValidOp (parse_datum extract_int extract_double line d op)
  unfolding parse_datum
  parse_datum-HasValidOp line d op =
      >>=-Ensures HasValidOp (get_item extract_int (stream_on line) d.id) _ λ (id, is1) e1.
        >>=-Ensures HasValidOp (get_item extract_double is1 d.operand1) _ λ (x, is2) e2.
          >>=-Ensures HasValidOp (get_item extract_char is2 op) _ λ (c, is3) e3.
            >>=-Ensures HasValidOp (operation_of c) _ λ o e4.
              >>=-Ensures HasValidOp (get_item extract_double is3 d.operand2) _
                λ (y, is4) e5. operation_of-IsValidOp c o e4

  datum_of-HasValidOp :
      (line : Bytes) (is : Stream) (d : ClientData F) (op : ℕ)
      → Ensures HasValidOp (datum_of extract_int extract_double line is d op)
  unfolding datum_of
  datum_of-HasValidOp line is d op =
      if-Ensures HasValidOp is.bad _ _ tt
        (if-Ensures HasValidOp (is_nil line) _ _ tt (parse_datum-HasValidOp line d op))

  -- Whatever the input holds, and whatever stood in the variables that are not set: a request that
  -- `get_datum` returns has one of the four operations.
  pub get_datum-HasValidOp :
      (client_id : Bytes) (d : ClientData F) (op : ℕ) (is : Stream)
      → Ensures HasValidOp (get_datum extract_int extract_double client_id d op is).0
  unfolding get_datum
  get_datum-HasValidOp client_id d op is =
      let (line, is') = read_line (suc (length is.rest)) is [] in
      datum_of-HasValidOp line is' (record d { client_id = client_id }) op
