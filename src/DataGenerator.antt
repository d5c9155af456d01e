-- ===== src/DataGenerator.antt =====
-- ClientServerCalculator/DataGenerator/DataGenerator.cpp: the requests that it prints. The random
-- distributions are a parameter, the values drawn for a request from a seed and a deviation.
pub mod Bounds
pub mod Scraped
pub mod Tests
use tcpclient_server.Prelude.{
  ℕ, zero, suc, ◌+◌, ◌-◌, ◌%◌, ◌^◌, List, [], ◌∷◌, ◌++◌, Bytes, codes, length, Option, none, some,
  ltb, leb, ◌==◌, if◌then◌else◌,
}
use tcpclient_server.Errors.{Outcome, returns, throws, undefined, ◌>>=◌}
use tcpclient_server.Atoi.{atoi}
use tcpclient_server.Calculator.{Operation, ClientData, padding_size}
use tcpclient_server.DataScraper.RoundTrip.{print_datum}

-- `operation`, `operand1` and `operand2` of a request.
pub record Draw (F : Type 0) : Type 0 where
  pub operation : Operation
  pub operand1 : F
  pub operand2 : F

abbrev pub word : Bytes
word = codes "The padding..."

pub char_at : Bytes → ℕ → ℕ
char_at [] i = 0
char_at (c ∷ s) zero = c
char_at (c ∷ s) (suc i) = char_at s i

-- The loop that fills the padding, from the index `i` on for `n` rounds.
pub pad : ℕ → ℕ → Bytes
unfolding char_at
pad zero i = []
pad (suc n) i = char_at word (i % length word) ∷ pad n (i + 1)

module _ {F : Type 0} where
  -- The request of one round. It has no client id.
  pub datum : (ℕ → Draw F) → ℕ → ClientData F
  unfolding pad
  datum draw request_id = record {
    client_id = [];
    id = request_id;
    operand1 = (draw request_id).operand1;
    operation = (draw request_id).operation;
    operand2 = (draw request_id).operand2;
    padding = pad padding_size 0;
  }

  -- The requests from the number `request_id` on, `n` of them.
  pub generate : (ℕ → Draw F) → ℕ → ℕ → List (ClientData F)
  generate draw zero request_id = []
  generate draw (suc n) request_id = datum draw request_id ∷ generate draw n (request_id + 1)

module _ {F : Type 0} (print_int : ℕ → Bytes) (print_double : F → Bytes) where
  -- `cout << datum << endl`, where `<<` ends the line itself.
  pub output : List (ClientData F) → Bytes
  output [] = []
  output (d ∷ ds) = print_datum print_int print_double d ++ (10 ∷ (10 ∷ output ds))

-- An `int` as a `size_t`, or as a 64-bit seed: a negative one wraps around.
pub unsigned_of : ℕ → ℕ
unsigned_of n = if ltb n (2 ^ 31) then n else n + (2 ^ 64 - 2 ^ 32)

-- The seed that the arguments give, or the default.
pub seed_of : ℕ → List Bytes → Outcome ℕ
seed_of default_seed [] = returns default_seed
seed_of default_seed (s ∷ rest) = do n ← atoi s; returns (unsigned_of n)

abbrev prepend : {A : Type 0} → A → Option (Outcome (List A)) → Option (Outcome (List A))
prepend a none = none
prepend a (some (returns ds)) = some (returns (a ∷ ds))
prepend a (some (throws e)) = some (throws e)
prepend a (some undefined) = some undefined

module _ {F : Type 0} where
  -- The loop of `main`: `for (int request_id = 1; request_id <= data_size; ++request_id)`. The
  -- number behind the last `int` is undefined; `none` means that the fuel ran out.
  pub request_loop : ℕ → (ℕ → Draw F) → ℕ → ℕ → Option (Outcome (List (ClientData F)))
  request_loop zero draw request_id data_size = none
  request_loop (suc fuel) draw request_id data_size =
      let more = request_loop fuel draw (request_id + 1) data_size in
      let next = if request_id + 1 == 2 ^ 31 then some undefined else more in
      if leb request_id data_size then prepend (datum draw request_id) next else some (returns [])

  -- The deviation that the arguments give, or the default.
  pub sigma_of : (Bytes → F) → F → List Bytes → F
  sigma_of atof default_sigma (s ∷ t ∷ rest) = atof t
  sigma_of atof default_sigma _ = default_sigma

-- What `main` does: it prints its usage and exits, or makes the requests.
pub data Run (F : Type 0) : Type 0 where
  usage : Run F
  makes : Outcome (Option (Outcome (List (ClientData F)))) → Run F

module _ {F : Type 0} (random : ℕ → F → ℕ → Draw F) (default_seed : ℕ) (default_sigma : F)
    (atof : Bytes → F) where
  -- `main`, with the fuel that always suffices.
  pub generator_main : List Bytes → Run F
  unfolding request_loop seed_of sigma_of unsigned_of
  generator_main (program ∷ size ∷ rest) = makes (do
    n ← atoi size
    seed ← seed_of default_seed rest
    let data_size = unsigned_of n
    returns
        (request_loop (suc data_size) (random seed (sigma_of atof default_sigma rest)) 1 data_size))
  generator_main _ = usage
