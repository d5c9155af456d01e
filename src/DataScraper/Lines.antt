-- ===== src/DataScraper/Lines.antt =====
-- Reading a line: the loop ends, and blank lines are passed over.
use tcpclient_server.Prelude.{
  ℕ, zero, suc, ◌-◌, ◌≤◌, ◌<◌, ◌≡◌, refl, ◌≢◌, ◌⊎◌, inl, inr, arith, true, false, not, ◌&&◌, [],
  ◌∷◌, ◌++◌, Bytes, length, Bool-cases, replicate, length-append, length-replicate,
}
use tcpclient_server.Calculator.{ClientData}
use tcpclient_server.DataScraper.{
  Stream, fails, stream_on, newline, scan_line, is_nil, max_input_length, getline, c_string,
  read_line, Extract, parse_datum, datum_of, get_datum,
}

-- A line that ends at a newline has taken at least that from the input.
scan_line-lt :
    (room : ℕ) (s : Bytes) → (scan_line room s).2 ≡ newline → length (scan_line room s).1 < length s
unfolding scan_line
scan_line-lt room [] h = cc
scan_line-lt zero (c ∷ s) h = ground arith
scan_line-lt (suc room) (c ∷ s) h = ground (arith, scan_line-lt room s)

-- A `getline` takes something from the input, or leaves the stream at its end or failed.
getline-moves :
    (is : Stream)
    → ((fails (getline is).1 ≡ true) ⊎ ((getline is).1.eof ≡ true))
      ⊎ (length (getline is).1.rest < length is.rest)
unfolding getline
getline-moves is = ground (arith, scan_line-lt (max_input_length - 1) is.rest)

-- Why the loop of `get_datum` may stop.
abbrev pub Stops : Bytes × Stream → Type 0
Stops (buffer, is) = (fails is ≡ true) ⊎ (is.eof ≡ true) ⊎ (buffer ≢ [])

stop_now :
    (is : Stream) (buffer : Bytes)
    → not (fails is) && not is.eof && is_nil buffer ≡ false
    → Stops (buffer, is)
stop_now is [] h = ground arith
stop_now is (c ∷ s) h = inr (inr (λ e. cc))

read_line-stopped :
    (fuel : ℕ) (is : Stream) (buffer : Bytes)
    → (fails is ≡ true) ⊎ (is.eof ≡ true)
    → read_line fuel is buffer ≡ (buffer, is)
unfolding read_line
read_line-stopped zero is buffer h = refl
read_line-stopped (suc fuel) is buffer h = ground arith

-- On a stream with fewer characters than the fuel, the loop of `get_datum` stops by its own test:
-- the stream failed or is at its end, or there is a line that is not empty. So the fuel that
-- `get_datum` gives suffices.
pub read_line-Stops :
    (fuel : ℕ) (is : Stream) (buffer : Bytes)
    → length is.rest < fuel
    → Stops (read_line fuel is buffer)
unfolding read_line
read_line-Stops zero is buffer h = absurd (omega arith)
read_line-Stops (suc fuel) is buffer h =
    elim (Bool-cases (not (fails is) && not is.eof && is_nil buffer)) [
      | inl more ↦
          rw (more, read_line)
            (elim (getline-moves is) [
              | inl stopped ↦
                  rw (read_line-stopped fuel (getline is).1 (c_string (getline is).0) stopped)
                    (elim stopped [ inl f ↦ inl f | inr e ↦ inr (inl e) ])
              | inr less ↦
                  read_line-Stops fuel (getline is).1 (c_string (getline is).0) (omega arith)
            ])
      | inr done ↦ rw (done, read_line) (stop_now is buffer done)
    ]

-- A line of text: no newline and no zero in it.
abbrev pub IsPlain : Bytes → Type 0
IsPlain [] = Unit
IsPlain (c ∷ s) = (c ≢ 10) × (c ≢ 0) × IsPlain s

scan_line-plain :
    (room : ℕ) (l rest : Bytes)
    → IsPlain l
    → length l ≤ room
    → scan_line room (l ++ (10 ∷ rest)) ≡ (l, rest, newline)
unfolding scan_line
scan_line-plain zero [] rest p h = refl
scan_line-plain (suc room) [] rest p h = refl
scan_line-plain zero (c ∷ l) rest p h = absurd (omega arith)
scan_line-plain (suc room) (c ∷ l) rest p h =
    ground (arith, scan_line-plain room l rest p.2 (omega arith))

getline-plain :
    (l rest : Bytes)
    → IsPlain l
    → length l < max_input_length
    → getline (stream_on (l ++ (10 ∷ rest))) ≡ (l, stream_on rest)
unfolding getline
getline-plain l rest p h =
    rw (scan_line-plain (max_input_length - 1) l rest p (omega arith), getline) refl

c_string-plain : (l : Bytes) → IsPlain l → c_string l ≡ l
unfolding c_string
c_string-plain [] p = refl
c_string-plain (c ∷ l) p = ground (arith, c_string-plain l p.2)

read_line_full : (fuel : ℕ) (is : Stream) (l : Bytes) → l ≢ [] → read_line fuel is l ≡ (l, is)
unfolding read_line
read_line_full zero is l h = refl
read_line_full (suc fuel) is [] h = absurd (h refl)
read_line_full (suc fuel) is (c ∷ l) h = ground arith

read_line-plain :
    (fuel : ℕ) (l rest : Bytes)
    → IsPlain l
    → l ≢ []
    → length l < max_input_length
    → read_line (suc fuel) (stream_on (l ++ (10 ∷ rest))) [] ≡ (l, stream_on rest)
unfolding read_line
read_line-plain fuel l rest p some_text h =
    rw (getline-plain l rest p h, read_line, c_string-plain l p)
      (read_line_full fuel (stream_on rest) l some_text)

-- Blank lines in front of a line of text that fits the buffer are passed over, and the line is
-- read.
pub read_line-blanks :
    (fuel blanks : ℕ) (l rest : Bytes)
    → IsPlain l
    → l ≢ []
    → length l < max_input_length
    → blanks < fuel
    → read_line fuel (stream_on (replicate blanks 10 ++ (l ++ (10 ∷ rest)))) []
      ≡ (l, stream_on rest)
unfolding read_line
read_line-blanks zero blanks l rest p some_text h enough = absurd (omega arith)
read_line-blanks (suc fuel) zero l rest p some_text h enough =
    read_line-plain fuel l rest p some_text h
read_line-blanks (suc fuel) (suc blanks) l rest p some_text h enough =
    rw (getline-plain [] (replicate blanks 10 ++ (l ++ (10 ∷ rest))) tt (omega arith), read_line)
      (rw (c_string-plain [] tt) (read_line-blanks fuel blanks l rest p some_text h (omega arith)))

length-blanks-lt :
    (blanks : ℕ) (l rest : Bytes)
    → blanks < suc (length (replicate blanks 10 ++ (l ++ (10 ∷ rest))))
length-blanks-lt blanks l rest = omega (
  arith,
  length-append {A = ℕ} (replicate blanks 10) (l ++ (10 ∷ rest)),
  length-replicate {A = ℕ} blanks 10,
)

-- `get_datum` passes blank lines over and parses the first line of text that fits its buffer.
pub get_datum-line :
    {F : Type 0} (extract_int : Extract ℕ) (extract_double : Extract F) (client_id : Bytes)
    (d : ClientData F) (op blanks : ℕ) (l rest : Bytes)
    → IsPlain l
    → l ≢ []
    → length l < max_input_length
    → get_datum extract_int extract_double client_id d op
        (stream_on (replicate blanks 10 ++ (l ++ (10 ∷ rest))))
      ≡ (
        parse_datum extract_int extract_double l (record d { client_id = client_id }) op,
        stream_on rest,
      )
unfolding get_datum datum_of
get_datum-line extract_int extract_double client_id d op blanks [] rest p some_text h =
    absurd (some_text refl)
get_datum-line extract_int extract_double client_id d op blanks (c ∷ l) rest p some_text h =
    rw
      (
        read_line-blanks (suc (length (replicate blanks 10 ++ ((c ∷ l) ++ (10 ∷ rest))))) blanks
            (c ∷ l) rest p some_text h (length-blanks-lt blanks (c ∷ l) rest),
        get_datum,
      )
      refl
