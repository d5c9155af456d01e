-- ===== src/Client.antt =====
-- ClientServerFramework/Client: Client.hpp and Scraper.hpp as two threads that share the queue and
-- the input stream. A step of a thread is what it does between two accesses to what they share. The
-- connector, the strategy and `get_datum` are parameters, or any value that the step is given.
-- `start` and `listen` are the client's thread; the program point `testing` begins the body of
-- `listen`.
pub mod Connector
pub mod Creation
pub mod Steps
pub mod Fifo
pub mod Race
pub mod Channel
pub mod Refinement
pub mod Alive
pub mod Finish
pub mod Tests
use tcpclient_server.Prelude.{
  Bool, true, false, ◌&&◌, List, [], ◌∷◌, ◌++◌, Option, none, some, if◌then◌else◌, not,
}
use tcpclient_server.Errors.{
  ErrorCode, success, invalid_argument, connection_aborted, connection_reset, timed_out, other,
  is_error, Exception, system_error, runtime_error, out_of_data, bad_data_error, Outcome, returns,
  throws, undefined,
}
use tcpclient_server.Response.{TransmissionStatus, is_ok, Response}
use tcpclient_server.Queue

-- An input stream: `get_datum` of the scraper, `!is_` and `is_.good()`.
pub record Source (I D : Type 0) : Type 0 where
  pub get_datum : I → Outcome D × I
  pub failed : I → Bool
  pub good : I → Bool

-- The program points of the client's thread; `faulted` stands for an operation without a defined
-- result.
pub data ClientPoint (D : Type 0) : Type 0 where
  opening testing taking popping checking checking_scraper done faulted : ClientPoint D
  sending : D → ClientPoint D
  looping : Bool → ClientPoint D
  failed : Exception → ClientPoint D

-- The program points of the scraper's thread.
pub data ScraperPoint (D : Type 0) : Type 0 where
  scraping ended broken : ScraperPoint D
  pushing : D → ScraperPoint D

-- `scraped` and `responses` record what has been pushed, and what the strategy has been given, so
-- far.
pub record System (I D R : Type 0) : Type 0 where
  pub stream : I
  pub queue : List D
  pub scraper : ScraperPoint D
  pub client : ClientPoint D
  pub keep_alive : Bool
  pub connection_ok : Bool
  pub scraped : List D
  pub popped : List D
  pub responses : List (D × R)

-- What `connector_.send` came to.
pub data Reply (R : Type 0) : Type 0 where
  replied : ErrorCode → Response R → Reply R
  thrown : Exception → Reply R

-- What the switch on the code of a reply decides.
pub data Verdict : Type 0 where
  handle : Verdict
  go_on : Bool → Verdict
  give_up : ErrorCode → Verdict

pub verdict : ErrorCode → TransmissionStatus → Verdict
verdict success status = if is_ok status then handle else go_on false
verdict connection_aborted status = go_on false
verdict connection_reset status = go_on false
verdict timed_out status = go_on false
verdict invalid_argument status = give_up invalid_argument
verdict (other n) status = give_up (other n)

-- What `connector_.open(ec)` came to: the code and whether there was an end-point, or an exception.
pub data Opening : Type 0 where
  opened : ErrorCode → Bool → Opening
  open_threw : Exception → Opening

-- The front of a queue, as a record of what is popped.
heads : {D : Type 0} → List D → List D
heads [] = []
heads (d ∷ q) = d ∷ []

module _ {I D R : Type 0} where
  pub start_client : I → Bool → System I D R
  start_client is keep_alive = record {
    stream = is;
    queue = [];
    scraper = scraping;
    client = opening;
    keep_alive = keep_alive;
    connection_ok = true;
    scraped = [];
    popped = [];
    responses = [];
  }

  -- One round of the loop in `start`, up to the call of `listen`.
  pub open_connection : System I D R → Opening → System I D R
  open_connection s (open_threw e) = record s { client = failed e }
  open_connection s (opened ec is_open) =
      if is_error ec
      then record s { client = failed (system_error ec) }
      else if is_open
      then record s { client = testing; connection_ok = true }
      else record s { client = failed (runtime_error "Unable to open connection.") }

  -- `if (!queue.empty())`.
  pub test_queue : System I D R → System I D R
  test_queue s =
      if Queue.empty s.queue then record s { client = checking } else record s { client = taking }

  pub take_front : System I D R → System I D R
  take_front s = elim (Queue.front s.queue) [
    | returns d ↦ record s { client = sending d }
    | throws e ↦ record s { client = failed e }
    | undefined ↦ record s { client = faulted }
  ]

  act_on : System I D R → D → R → Verdict → System I D R
  act_on s d r handle = record s {
    client = popping;
    connection_ok = true;
    responses = s.responses ++ ((d, r) ∷ []);
  }
  act_on s d r (go_on connection_ok) = record s { client = checking; connection_ok = connection_ok }
  act_on s d r (give_up ec) = record s { client = failed (system_error ec) }

  pub receive_reply : System I D R → D → Reply R → System I D R
  unfolding act_on verdict
  receive_reply s d (thrown e) = record s { client = failed e }
  receive_reply s d (replied ec r) = act_on s d r.payload (verdict ec r.transmission_status)

  pub pop_front : System I D R → System I D R
  unfolding heads
  pop_front s = elim (Queue.pop s.queue) [
    | returns q ↦ record s { client = checking; queue = q; popped = s.popped ++ heads s.queue }
    | throws e ↦ record s { client = failed e }
    | undefined ↦ record s { client = faulted }
  ]

  -- `input_ok = keep_alive_ || !queue.empty() || scraper_`, up to the look at the scraper.
  pub check_queue : System I D R → System I D R
  check_queue s =
      if s.keep_alive
      then record s { client = looping true }
      else if Queue.empty s.queue
      then record s { client = checking_scraper }
      else record s { client = looping true }

  -- `while (connection_ok && input_ok)`, `return input_ok` and `while (retry)`.
  pub end_round : System I D R → Bool → System I D R
  end_round s input_ok =
      if s.connection_ok && input_ok
      then record s { client = testing }
      else if input_ok
      then record s { client = opening }
      else record s { client = done }

module _ {I D R : Type 0} (source : Source I D) where
  -- The conversion of the scraper to `bool`.
  pub check_scraper : System I D R → System I D R
  check_scraper s = record s { client = looping (source.good s.stream) }

  -- What a round of `Scraper::start` does with the outcome of `get_datum`.
  scraped_datum : System I D R → Outcome D × I → System I D R
  scraped_datum s (returns d, is) = record s { stream = is; scraper = pushing d }
  scraped_datum s (throws out_of_data, is) = record s { stream = is; scraper = scraping }
  scraped_datum s (throws bad_data_error, is) = record s { stream = is; scraper = scraping }
  scraped_datum s (throws e, is) = record s { stream = is; scraper = ended }
  scraped_datum s (undefined, is) = record s { stream = is; scraper = broken }

  -- `while(is_)` and the call of `get_datum`.
  pub scrape : System I D R → System I D R
  unfolding scraped_datum
  scrape s =
      if source.failed s.stream
      then record s { scraper = ended }
      else scraped_datum s (source.get_datum s.stream)

  -- `write_datum`.
  pub write_datum : System I D R → D → System I D R
  write_datum s d = record s {
    queue = Queue.push s.queue d;
    scraper = scraping;
    scraped = s.scraped ++ (d ∷ []);
  }
