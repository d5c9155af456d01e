-- ===== src/Client/Steps.antt =====
-- The steps of the two threads and of their environment, in every order, and what is reached by
-- them.
use tcpclient_server.Prelude.{◌≡◌, Bool}
use tcpclient_server.Client.{
  Source, opening, testing, taking, popping, checking, checking_scraper, sending, looping, scraping,
  pushing, System, Reply, Opening, open_connection, test_queue, take_front, receive_reply,
  pop_front, check_queue, end_round, check_scraper, scrape, write_datum,
}

-- A step may be made where its thread has come to its program point. What the connector answers is
-- arbitrary.
pub data Step {I D R : Type 0} (source : Source I D) (s : System I D R)
    : System I D R → Type 0 where
  opens : (o : Opening) → s.client ≡ opening → Step source s (open_connection s o)
  tests : s.client ≡ testing → Step source s (test_queue s)
  takes : s.client ≡ taking → Step source s (take_front s)
  receives : (d : D) (r : Reply R) → s.client ≡ sending d → Step source s (receive_reply s d r)
  pops : s.client ≡ popping → Step source s (pop_front s)
  checks : s.client ≡ checking → Step source s (check_queue s)
  checks_scraper : s.client ≡ checking_scraper → Step source s (check_scraper source s)
  loops : (input_ok : Bool) → s.client ≡ looping input_ok → Step source s (end_round s input_ok)
  scrapes : s.scraper ≡ scraping → Step source s (scrape source s)
  pushes : (d : D) → s.scraper ≡ pushing d → Step source s (write_datum source s d)

pub data Reach {I D R : Type 0} (source : Source I D) (s : System I D R)
    : System I D R → Type 0 where
  here : Reach source s s
  next : {t u : System I D R} → Reach source s t → Step source t u → Reach source s u
