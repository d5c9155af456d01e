-- ===== src/DataScraper/Tests.antt =====
-- A way to print and read numbers that keeps them: `n` is written as `n` strokes and a full stop.
use tcpclient_server.Prelude.{
  ℕ, zero, suc, ◌+◌, ◌≡◌, refl, ◌⊎◌, arith, true, false, [], ◌∷◌, ◌++◌, Bytes, codes, replicate,
  ◌==◌, if◌then◌else◌, ap, ◌∙◌,
}
use tcpclient_server.Errors.{returns, throws, bad_data_error}
use tcpclient_server.Header.{skip_spaces, is_space}
use tcpclient_server.Calculator.{nop, add, divide, ClientData}
use tcpclient_server.Calculator.Answer.{IsValidOp}
use tcpclient_server.DataScraper.{
  Stream, Extract, stream_on, get_item, parse_datum, operation_of, is_nil, read_line,
}
use tcpclient_server.DataScraper.Lines.{Stops, read_line-Stops}
use tcpclient_server.DataScraper.Items.{short_line}
use tcpclient_server.DataScraper.RoundTrip.{IsText, print_datum, parse-print}

abbrev stroke : ℕ
stroke = b'|'

unfoldable pub print_strokes : ℕ → Bytes
print_strokes n = replicate n stroke ++ codes "."

-- The strokes at the front, counted behind `n`, up to their full stop.
count_strokes : Bytes → ℕ → Stream → ℕ × Stream
count_strokes [] n is = (n, record is { rest = []; eof = true; fail_bit = true })
count_strokes (c ∷ s) n is =
    if c == stroke then count_strokes s (suc n) is else (n, record is { rest = s; eof = is_nil s })

unfoldable pub extract_strokes : Extract ℕ
unfolding count_strokes
extract_strokes is old = count_strokes (skip_spaces is.rest) 0 is

skip_lead : (lead : ℕ) (s : Bytes) → skip_spaces (replicate lead b' ' ++ s) ≡ skip_spaces s
unfolding skip_spaces is_space
skip_lead zero s = refl
skip_lead (suc lead) s = skip_lead lead s

skip_print :
    (n : ℕ) (rest : Bytes) → skip_spaces (print_strokes n ++ rest) ≡ print_strokes n ++ rest
unfolding skip_spaces is_space print_strokes
skip_print zero rest = refl
skip_print (suc n) rest = refl

count-print :
    (n k : ℕ) (rest : Bytes) (is : Stream)
    → count_strokes (print_strokes n ++ rest) k is
      ≡ (n + k, record is { rest = rest; eof = is_nil rest })
unfolding count_strokes print_strokes
count-print zero k rest is = ground arith
count-print (suc n) k rest is =
    let e : n + suc k ≡ suc n + k = omega arith in
    count-print n (suc k) rest is
    ∙ ap (λ (x : ℕ). (x, record is { rest = rest; eof = is_nil rest })) e

pub strokes-IsText : IsText extract_strokes print_strokes (λ n. n)
unfolding extract_strokes
strokes-IsText = record {
  reads = λ lead x rest old h.
      rw (skip_lead lead (print_strokes x ++ rest), skip_print x rest, count-print x 0 rest)
        (let e : x + 0 ≡ x = omega arith in rw e refl);
}

abbrev pub blank_request : ClientData ℕ
blank_request = record {
  client_id = codes "James";
  id = 0;
  operand1 = 0;
  operation = nop;
  operand2 = 0;
  padding = [];
}

abbrev pub request : ClientData ℕ
request = record blank_request { id = 3; operand1 = 4; operation = divide; operand2 = 2 }

parse-print_example :
    ((parse_datum extract_strokes extract_strokes
          (print_datum print_strokes print_strokes request)
          blank_request
          0
        ≡ returns request)
      × IsValidOp request.operation)
    ⊎ ((parse_datum extract_strokes extract_strokes
            (print_datum print_strokes print_strokes request)
            blank_request
            0
          ≡ throws bad_data_error)
        × ¬ IsValidOp request.operation)
parse-print_example =
    parse-print extract_strokes extract_strokes print_strokes print_strokes (λ n. n) request
      blank_request 0 strokes-IsText strokes-IsText

-- A number and one operand, and nothing behind them.
short_line_example :
    parse_datum extract_strokes extract_strokes (codes "|. ||.") blank_request b'+'
    ≡ returns (record blank_request { id = 1; operand1 = 2; operation = add })
unfolding get_item extract_strokes operation_of skip_spaces is_space
short_line_example =
    short_line extract_strokes extract_strokes (codes "|. ||.") blank_request b'+' 1 2
      (stream_on (codes " ||.")) (record { rest = []; eof = true; fail_bit = false; bad = false })
      add refl refl refl refl refl

read_line-Stops_example : Stops (read_line 4 (stream_on (10 ∷ 10 ∷ b'x' ∷ [])) [])
read_line-Stops_example = read_line-Stops 4 (stream_on (10 ∷ 10 ∷ b'x' ∷ [])) [] (omega arith)
