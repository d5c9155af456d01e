-- ===== src/Client/Race.antt =====
-- The end of `listen` against the scraper's thread: the queue is looked at before the scraper, and
-- a datum that arrives in between, or is still in the scraper's hands, is left behind.
use tcpclient_server.Prelude.{true, false, [], ◌∷◌, ◌≡◌, refl, arith}
use tcpclient_server.Errors.{success, returns}
use tcpclient_server.Queue
use tcpclient_server.Client.{
  Source, done, System, opened, start_client, open_connection, test_queue, check_queue, end_round,
  check_scraper, scrape, scraped_datum, write_datum,
}
use tcpclient_server.Client.Steps.{
  opens, tests, checks, checks_scraper, loops, scrapes, pushes, Reach, here, next,
}

module _ {I D R : Type 0} (source : Source I D) where
  -- The schedule: the scraper reads its last datum, the client makes a round on the empty queue,
  -- and the scraper pushes.
  overtaken : I → D → System I D R
  overtaken is d =
      write_datum source
        (end_round
          (check_scraper source (
            check_queue (
              test_queue
                (open_connection (scrape source (start_client is false)) (opened success true)))))
          false)
        d

  -- If the datum that the scraper reads ends the input, as a last line without a newline does,
  -- there is a run without any error in which the client has come to its end while that datum
  -- stands in the queue and no request was ever answered.
  pub last_datum_lost :
      (is is' : I) (d : D)
      → source.failed is ≡ false
      → source.get_datum is ≡ (returns d, is')
      → source.good is' ≡ false
      → (s : System I D R) × Reach source (start_client is false) s
        × (s.client ≡ done)
        × (s.queue ≡ d ∷ [])
        × (s.responses ≡ [])
  unfolding overtaken start_client open_connection test_queue check_queue end_round check_scraper
      scrape scraped_datum write_datum Queue.empty Queue.push
  last_datum_lost is is' d f g e = (
    overtaken is d,
    next
        (next
          (next
            (next
              (next (next (next here (scrapes refl)) (opens (opened success true) (ground arith)))
                (tests (ground arith)))
              (checks (ground arith)))
            (checks_scraper (ground arith)))
          (loops false (ground arith)))
        (pushes d (ground arith)),
    ground arith,
    ground arith,
    ground arith,
  )
