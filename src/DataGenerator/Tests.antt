-- ===== src/DataGenerator/Tests.antt =====
-- A generator that draws an invalid operation for every third request.
use tcpclient_server.Prelude.{
  ℕ, ◌+◌, ◌-◌, ◌%◌, ◌^◌, ◌≤◌, ◌<◌, ◌≡◌, ◌⊎◌, refl, [], ◌∷◌, some, arith, codes, length,
  if◌then◌else◌, ◌==◌,
}
use tcpclient_server.Errors.{returns, undefined}
use tcpclient_server.Atoi.Digits.{value}
use tcpclient_server.Calculator.{nop, multiply, symbol}
use tcpclient_server.DataScraper.{stream_on, get_datum}
use tcpclient_server.DataScraper.RoundTrip.{print_datum}
use tcpclient_server.DataScraper.Tests.{
  extract_strokes, print_strokes, strokes-IsText, blank_request,
}
use tcpclient_server.DataGenerator.{Draw, generate, output, datum, makes, generator_main}
use tcpclient_server.DataGenerator.Bounds.{generator_main_bounds}
use tcpclient_server.DataGenerator.Scraped.{AllLines, AllExpected, scrape_all, scrape_all-output}

abbrev drawn : ℕ → Draw ℕ
drawn n = record {
  operation = if n % 3 == 0 then nop else multiply;
  operand1 = n;
  operand2 = n + 1;
}

drawn_lines :
    AllLines extract_strokes extract_strokes print_strokes print_strokes
      (λ n. n)
      (generate drawn 3 1)
unfolding generate datum print_datum print_strokes symbol
drawn_lines = (
  (omega arith, λ e. cc, omega arith),
  ((omega arith, λ e. cc, omega arith), ((omega arith, λ e. cc, omega arith), tt)),
)

scrape_all-output_example :
    AllExpected extract_strokes extract_strokes print_strokes print_strokes
      (λ n. n)
      (codes "James")
      blank_request
      0
      (generate drawn 3 1)
      (scrape_all
        (get_datum extract_strokes extract_strokes (codes "James") blank_request 0)
        (length (generate drawn 3 1))
        (stream_on (output print_strokes print_strokes (generate drawn 3 1))))
scrape_all-output_example =
    scrape_all-output extract_strokes extract_strokes print_strokes print_strokes (λ n. n)
      (codes "James") blank_request 0 drawn 3 1 strokes-IsText strokes-IsText drawn_lines

generator_main_bounds_example :
    let run = generator_main (λ seed sigma. drawn) 5489 1000000 (λ s. 0) in
    ((value (codes "12") < 2 ^ 31 - 1)
      × (run (codes "generator" ∷ codes "12" ∷ [])
          ≡ makes (returns (some (returns (generate drawn (value (codes "12")) 1))))))
    ⊎ ((value (codes "12") ≡ 2 ^ 31 - 1)
        × (run (codes "generator" ∷ codes "12" ∷ []) ≡ makes (returns (some undefined))))
    ⊎ ((2 ^ 31 ≤ value (codes "12"))
        × (run (codes "generator" ∷ codes "12" ∷ []) ≡ makes undefined))
generator_main_bounds_example =
    generator_main_bounds (λ seed sigma. drawn) 5489 1000000 (λ s. 0) (codes "generator")
      (codes "12") (refl, (refl, tt))
