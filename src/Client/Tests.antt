-- ===== src/Client/Tests.antt =====
-- A client whose input is one number, and runs of it.
use tcpclient_server.Prelude.{
  ℕ, ◌≡◌, refl, ◌≢◌, arith, true, false, not, [], ◌∷◌, ◌++◌, map, codes, ◌==◌, none, Bytes,
}
use tcpclient_server.Errors.{success, returns}
use tcpclient_server.Response.{Response, ok}
use tcpclient_server.Header.{parse_header, format_header, setw, to_hex}
use tcpclient_server.Queue
use tcpclient_server.Io.{read_impl, write_impl}
use tcpclient_server.Io.Tests.{loopback}
use tcpclient_server.Filter.{create}
use tcpclient_server.Connection.{Archive, Connection, write, overwrite, prepare}
use tcpclient_server.Connection.Tests.{number_archive, connection_on}
use tcpclient_server.Client.{
  Source, testing, popping, faulted, done, System, replied, opened, start_client, open_connection,
  test_queue, take_front, receive_reply, pop_front, scrape, scraped_datum, write_datum, act_on,
  verdict,
}
use tcpclient_server.Client.Steps.{
  opens, tests, takes, receives, pops, scrapes, pushes, Reach, here, next,
}
use tcpclient_server.Client.Fifo.{Holds, Reach-fifo}
use tcpclient_server.Client.Race.{last_datum_lost}
use tcpclient_server.Client.Channel.{new_channel}
use tcpclient_server.Client.Refinement.{channel_of, Refines, client-Refines}
use tcpclient_server.Client.Alive.{serves_queue}
use tcpclient_server.Client.Finish.{finishes_queue}
use tcpclient_server.Client.Connector.{IsConnect, send, garbled_reply_accepted}

-- The stream is the number that is still to come; after it the stream is at its end.
abbrev pub one_number : Source ℕ ℕ
one_number = record {
  get_datum = λ n. (returns n, 0);
  failed = λ n. n == 0;
  good = λ n. not (n == 0);
}

abbrev scraped : System ℕ ℕ ℕ
scraped = write_datum one_number (scrape one_number (start_client 3 true)) 3

abbrev asked : System ℕ ℕ ℕ
asked = take_front (test_queue (open_connection scraped (opened success true)))

abbrev pub answered : System ℕ ℕ ℕ
answered =
    receive_reply asked 3 (replied success (record { transmission_status = ok; payload = 6 }))

pub answered-Reach : Reach one_number (start_client 3 true) answered
unfolding start_client scrape scraped_datum write_datum open_connection test_queue take_front
    receive_reply act_on verdict Queue.empty Queue.front Queue.push
answered-Reach =
    next
      (next
        (next
          (next (next (next here (scrapes refl)) (pushes 3 refl))
            (opens (opened success true) refl))
          (tests refl))
        (takes refl))
      (receives 3 (replied success (record { transmission_status = ok; payload = 6 })) refl)

Reach-fifo_example :
    (answered.popped ++ answered.queue ≡ answered.scraped)
    × Holds answered.client answered.queue answered.popped answered.responses
    × (answered.client ≢ faulted)
Reach-fifo_example = Reach-fifo one_number 3 true answered-Reach

client-Refines_example :
    (channel_of (start_client {I = ℕ} {D = ℕ} {R = ℕ} 3 true) ≡ new_channel)
    × Refines answered (pop_front answered)
unfolding receive_reply
client-Refines_example =
    client-Refines one_number 3 true answered (pop_front answered) answered-Reach (pops refl)

last_datum_lost_example :
    (s : System ℕ ℕ ℕ) × Reach one_number (start_client 3 false) s
    × (s.client ≡ done)
    × (s.queue ≡ 3 ∷ [])
    × (s.responses ≡ [])
last_datum_lost_example = last_datum_lost one_number 3 0 3 refl refl refl

abbrev two_waiting : System ℕ ℕ ℕ
two_waiting = record (open_connection (start_client 3 true) (opened success true)) {
  queue = 4 ∷ 5 ∷ [];
}

serves_queue_example :
    (t : System ℕ ℕ ℕ) × Reach one_number two_waiting t
    × (t.client ≡ testing)
    × (t.queue ≡ [])
    × (t.popped ≡ two_waiting.popped ++ two_waiting.queue)
    × (t.responses ≡ two_waiting.responses ++ map (λ d. (d, d)) two_waiting.queue)
unfolding open_connection start_client
serves_queue_example = serves_queue one_number two_waiting (λ d. d) refl refl

-- The input is at its end.
abbrev last_two : System ℕ ℕ ℕ
last_two = record (open_connection (start_client 0 false) (opened success true)) {
  queue = 4 ∷ 5 ∷ [];
}

finishes_queue_example :
    (t : System ℕ ℕ ℕ) × Reach one_number last_two t
    × (t.client ≡ done)
    × (t.queue ≡ [])
    × (t.popped ≡ last_two.popped ++ last_two.queue)
    × (t.responses ≡ last_two.responses ++ map (λ d. (d, d)) last_two.queue)
unfolding open_connection start_client
finishes_queue_example = finishes_queue one_number last_two (λ d. d) refl refl refl

pub loopback-IsConnect : IsConnect loopback
loopback-IsConnect = record { found = λ begin s. ground arith }

-- An archive of responses that are never loaded.
abbrev response_archive : Archive (Response ℕ)
response_archive = record {
  save = λ r. r.payload ∷ [];
  load = λ s old. record { value = old; failure = none };
}

-- What comes back first is no header: the request's own would stand behind it.
abbrev chatty : Connection Bytes
chatty = connection_on (codes "HTTP/1.1")

abbrev unset : Response ℕ
unset = record { transmission_status = ok; payload = 77 }

garbled_reply_accepted_example :
    let sent = send loopback number_archive response_archive chatty 3 unset in
    ((receive_reply asked 3 (replied sent.ec sent.response)).client ≡ popping)
    × ((receive_reply asked 3 (replied sent.ec sent.response)).responses
        ≡ asked.responses ++ ((3, 77) ∷ []))
unfolding create parse_header read_impl write_impl write prepare overwrite format_header setw to_hex
garbled_reply_accepted_example =
    garbled_reply_accepted loopback number_archive response_archive asked chatty 3 unset refl refl
      refl refl
