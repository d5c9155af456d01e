-- ===== src/DataScraper.antt =====
-- ClientServerCalculator/TCPClient/DataScraper.cpp and DataScraper.hpp: one line of the input, and
-- the request that it stands for. `>>` into an `int32_t` and into a `double` is a parameter. A
-- variable that has not been set yet holds an arbitrary value, which is an argument.
pub mod Lines
pub mod Items
pub mod Valid
pub mod RoundTrip
pub mod Tests
use tcpclient_server.Prelude.{
  ℕ, zero, suc, ◌+◌, ◌-◌, ◌≡◌, Bool, true, false, not, ◌&&◌, ◌||◌, List, [], ◌∷◌, ◌++◌, Bytes,
  length, ◌==◌, if◌then◌else◌,
}
use tcpclient_server.Errors.{
  Outcome, returns, throws, ◌>>=◌, runtime_error, bad_data_error, out_of_data,
}
use tcpclient_server.Header.{skip_spaces}
use tcpclient_server.Calculator.{Operation, add, subtract, multiply, divide, ClientData}

-- An input stream: what is left to read and the state bits.
pub record Stream : Type 0 where
  pub rest : Bytes
  pub eof : Bool
  pub fail_bit : Bool
  pub bad : Bool

abbrev pub good : Stream → Bool
good is = not (is.eof || is.fail_bit || is.bad)

-- `fail()`; the stream itself as a condition is the negation.
abbrev pub fails : Stream → Bool
fails is = is.fail_bit || is.bad

-- A stream on a text.
abbrev pub stream_on : Bytes → Stream
stream_on s = record { rest = s; eof = false; fail_bit = false; bad = false }

-- `is >> item`: from a good stream and the old value of the variable, the new value and the stream.
abbrev pub Extract : Type 0 → Type 0
Extract A = Stream → A → A × Stream

-- `is >> c` for a `char`: the next character that is no space.
next_char : Bytes → ℕ → Stream → ℕ × Stream
next_char [] old is = (old, record is { rest = []; eof = true; fail_bit = true })
next_char (c ∷ s) old is = (c, record is { rest = s })

unfoldable pub extract_char : Extract ℕ
unfolding next_char
extract_char is old = next_char (skip_spaces is.rest) old is

-- The tests of `get_item` behind the extraction.
check_item : {A : Type 0} → A → Stream → Outcome (A × Stream)
check_item item is =
    if fails is
    then throws bad_data_error
    else if is.bad
    then throws (runtime_error "I/O error on input stream.")
    else returns (item, is)

-- `get_item`.
unfoldable pub get_item : {A : Type 0} → Extract A → Stream → A → Outcome (A × Stream)
unfolding check_item
get_item extract is item =
    let (item', is') = extract is item in
    if good is then check_item item' is' else check_item item is

-- The switch on the operator's character.
unfoldable pub operation_of : ℕ → Outcome Operation
operation_of op =
    if op == b'+'
    then returns add
    else if op == b'-'
    then returns subtract
    else if op == b'*'
    then returns multiply
    else if op == b'/'
    then returns divide
    else throws bad_data_error

-- Why `getline` stopped: it took a newline, met the end of the input, or filled its buffer.
pub data LineEnd : Type 0 where
  newline end_of_input full : LineEnd

-- A line of at most `room` characters, what is behind it, and why it ended.
pub scan_line : ℕ → Bytes → Bytes × Bytes × LineEnd
scan_line room [] = ([], [], end_of_input)
scan_line zero (c ∷ s) = if c == 10 then ([], s, newline) else ([], c ∷ s, full)
scan_line (suc room) (c ∷ s) =
    let (l, r, e) = scan_line room s in if c == 10 then ([], s, newline) else (c ∷ l, r, e)

abbrev pub is_nil : Bytes → Bool
is_nil [] = true
is_nil (c ∷ s) = false

abbrev pub is_end : LineEnd → Bool
is_end end_of_input = true
is_end _ = false

abbrev pub is_full : LineEnd → Bool
is_full full = true
is_full _ = false

abbrev pub max_input_length : ℕ
max_input_length = 1000

-- `getline(buffer, max_input_length)`: the buffer keeps one place for the closing zero.
unfoldable pub getline : Stream → Bytes × Stream
unfolding scan_line
getline is =
    let (l, r, e) = scan_line (max_input_length - 1) is.rest in
    if good is
    then (l, record is { rest = r; eof = is_end e; fail_bit = is_full e || (is_end e && is_nil l) })
    else ([], record is { fail_bit = true })

-- The buffer as a text ends at its first zero, so `buffer[0] == 0` says that it is empty.
unfoldable pub c_string : Bytes → Bytes
c_string [] = []
c_string (c ∷ s) = if c == 0 then [] else c ∷ c_string s

-- `while (input_stream() && !input_stream().eof() && buffer[0] == 0)`, on fuel.
pub read_line : ℕ → Stream → Bytes → Bytes × Stream
read_line zero is buffer = (buffer, is)
read_line (suc fuel) is buffer =
    let (l, is') = getline is in
    let more = read_line fuel is' (c_string l) in
    if not (fails is) && not is.eof && is_nil buffer then more else (buffer, is)

module _ {F : Type 0} (extract_int : Extract ℕ) (extract_double : Extract F) where
  -- The items of a line. `d` is the request before its fields are set, and `op` the unset variable.
  unfoldable pub parse_datum : Bytes → ClientData F → ℕ → Outcome (ClientData F)
  unfolding get_item operation_of
  parse_datum line d op = do
    (id, is1) ← get_item extract_int (stream_on line) d.id
    (operand1, is2) ← get_item extract_double is1 d.operand1
    (op', is3) ← get_item extract_char is2 op
    operation ← operation_of op'
    (operand2, is4) ← get_item extract_double is3 d.operand2
    returns (record d { id = id; operand1 = operand1; operation = operation; operand2 = operand2 })

  -- What `get_datum` does with the line that it has read.
  datum_of : Bytes → Stream → ClientData F → ℕ → Outcome (ClientData F)
  unfolding parse_datum
  datum_of line is d op =
      if is.bad
      then throws (runtime_error "Input stream corrupted.")
      else if is_nil line
      then throws out_of_data
      else parse_datum line d op

  -- `get_datum`, with the fuel that always suffices.
  unfoldable pub get_datum : Bytes → ClientData F → ℕ → Stream → Outcome (ClientData F) × Stream
  unfolding read_line datum_of
  get_datum client_id d op is =
      let (line, is') = read_line (suc (length is.rest)) is [] in
      (datum_of line is' (record d { client_id = client_id }) op, is')
