-- ===== src/DataGenerator/Scraped.antt =====
-- What the scraper makes of the generator's output.
use tcpclient_server.Prelude.{
  ℕ, zero, suc, ◌+◌, ◌<◌, ◌≡◌, refl, ◌≢◌, ◌⊎◌, ap, List, [], ◌∷◌, ◌++◌, map, Bytes, length,
  replicate,
}
use tcpclient_server.Errors.{Outcome, returns, throws, bad_data_error}
use tcpclient_server.Calculator.{ClientData}
use tcpclient_server.Calculator.Answer.{IsValidOp}
use tcpclient_server.DataScraper.{Extract, Stream, stream_on, get_datum, max_input_length}
use tcpclient_server.DataScraper.Lines.{IsPlain, get_datum-line}
use tcpclient_server.DataScraper.RoundTrip.{IsText, print_datum, parse-print}
use tcpclient_server.DataGenerator.{Draw, datum, generate, output}

abbrev pub numbers : ℕ → ℕ → List ℕ
numbers zero i = []
numbers (suc n) i = i ∷ numbers n (i + 1)

-- The requests are numbered without a gap, as many as asked for.
pub generate-numbers :
    {F : Type 0} (draw : ℕ → Draw F) (n i : ℕ)
    → map (λ (d : ClientData F). d.id) (generate draw n i) ≡ numbers n i
unfolding generate datum
generate-numbers draw zero i = refl
generate-numbers draw (suc n) i = ap (◌∷◌ i) (generate-numbers draw n (i + 1))

-- The scraper, called once for each of `n` requests.
unfoldable pub scrape_all :
    {F : Type 0}
    → (Stream → Outcome (ClientData F) × Stream)
    → ℕ
    → Stream
    → List (Outcome (ClientData F))
scrape_all get zero is = []
scrape_all get (suc n) is = let (d, is') = get is in d ∷ scrape_all get n is'

module _ {F : Type 0} (extract_int : Extract ℕ) (extract_double : Extract F) (print_int : ℕ → Bytes)
    (print_double : F → Bytes) (rounded : F → F) where
  -- The lines that `<<` makes are text that fits the scraper's buffer.
  abbrev pub IsLine : ClientData F → Type 0
  IsLine d =
      IsPlain (print_datum print_int print_double d)
      × (print_datum print_int print_double d ≢ [])
      × (length (print_datum print_int print_double d) < max_input_length)

  abbrev pub AllLines : List (ClientData F) → Type 0
  AllLines [] = Unit
  AllLines (d ∷ ds) = IsLine d × AllLines ds

  module _ (client_id : Bytes) (old : ClientData F) (op : ℕ) where
    -- What is expected of a printed request.
    abbrev pub Expected : ClientData F → Outcome (ClientData F) → Type 0
    Expected d o =
        ((o
            ≡ returns (record old {
              client_id = client_id;
              id = d.id;
              operand1 = rounded d.operand1;
              operation = d.operation;
              operand2 = rounded d.operand2;
            }))
          × IsValidOp d.operation)
        ⊎ ((o ≡ throws bad_data_error) × ¬ IsValidOp d.operation)

    abbrev pub AllExpected : List (ClientData F) → List (Outcome (ClientData F)) → Type 0
    AllExpected [] [] = Unit
    AllExpected [] (o ∷ os) = ⊥
    AllExpected (d ∷ ds) [] = ⊥
    AllExpected (d ∷ ds) (o ∷ os) = Expected d o × AllExpected ds os

    scrape_all-output_from :
        (blanks : ℕ) (ds : List (ClientData F))
        → IsText extract_int print_int (λ n. n)
        → IsText extract_double print_double rounded
        → AllLines ds
        → AllExpected ds (
            scrape_all
              (get_datum extract_int extract_double client_id old op)
              (length ds)
              (stream_on (replicate blanks 10 ++ output print_int print_double ds)))
    unfolding scrape_all output
    scrape_all-output_from blanks [] int_law double_law h = tt
    scrape_all-output_from blanks (d ∷ ds) int_law double_law ((plain, text, short), more) =
        rw
          (get_datum-line extract_int extract_double client_id old op blanks
            (print_datum print_int print_double d) (10 ∷ output print_int print_double ds) plain
            text short)
          (
            parse-print extract_int extract_double print_int print_double rounded d
                (record old { client_id = client_id }) op int_law double_law,
            scrape_all-output_from 1 ds int_law double_law more,
          )

    -- Scraping the generator's output once for each request gives the requests back in order,
    -- under the client's id, with their numbers and operations, and with their operands up to
    -- the precision of the print; a request without a valid operation is refused and takes
    -- nothing from those behind it.
    pub scrape_all-output :
        (draw : ℕ → Draw F) (n i : ℕ)
        → IsText extract_int print_int (λ k. k)
        → IsText extract_double print_double rounded
        → AllLines (generate draw n i)
        → AllExpected (generate draw n i) (
            scrape_all
              (get_datum extract_int extract_double client_id old op)
              (length (generate draw n i))
              (stream_on (output print_int print_double (generate draw n i))))
    scrape_all-output draw n i int_law double_law h =
        scrape_all-output_from 0 (generate draw n i) int_law double_law h
