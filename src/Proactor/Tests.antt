-- ===== src/Proactor/Tests.antt =====
-- A server that doubles numbers, and one client.
use tcpclient_server.Prelude.{
  ℕ, ◌≡◌, refl, ◌↔◌, true, false, List, [], ◌∷◌, Bytes, none, some, arith, codes,
}
use tcpclient_server.Errors.{other, success, std_exception, Outcome, returns, throws}
use tcpclient_server.Response.{ok}
use tcpclient_server.Ssl.{SslOptions, off}
use tcpclient_server.Ssl.Tests.{server_options, willing}
use tcpclient_server.Header.{parse_header, format_header, setw, to_hex}
use tcpclient_server.Filter.{create}
use tcpclient_server.Filter.Tests.{marking, marking-IsZlib}
use tcpclient_server.Io.Tests.{loopback}
use tcpclient_server.Io
use tcpclient_server.Connection.{
  Connection, handle_read_header, handle_read_data, async_write, overwrite, resize,
}
use tcpclient_server.Connection.Tests.{number_archive, number_archive-IsArchive, connection_on}
use tcpclient_server.Conversation.Tests.{response_archive, doubling}
use tcpclient_server.Endpoints.{server_connection, async_initialize}
use tcpclient_server.Session.{replying, receiving, new_session, do_initialize, handle_event}
use tcpclient_server.Server.{ServerEvent, new_server, run}
use tcpclient_server.Proactor.{
  Peer, arrived, written, turn, HostEvent, client_accepted, completed, host_run, complete,
  find_peer, turns, Host,
}
use tcpclient_server.Proactor.Peers.{starting}
use tcpclient_server.Proactor.Simulation.{Abstracts, host_run-refines}
use tcpclient_server.Proactor.Beginnings.{beginning, server_connection-beginning}
use tcpclient_server.Proactor.Faults.{Faults}
use tcpclient_server.Proactor.Outages.{complete-Faults}
use tcpclient_server.Proactor.Pending.{Pends, host_run-Pends}
use tcpclient_server.Proactor.Isolation.{own, completes, host_run-own}
use tcpclient_server.Proactor.Exchange.{IsReady, host_run-answers}
use tcpclient_server.Conversation.Turn.{after}
use tcpclient_server.Filter.Laws.{create-IsFilter}
use tcpclient_server.Proactor.Stops.{Stops, host_run-Stops}

abbrev plain : SslOptions
plain = record server_options { mode = off }

abbrev made : ℕ → Outcome (Connection Bytes)
made n = server_connection marking willing [] (codes "????????") plain true

-- A client comes, sends a number, and is answered.
abbrev one_number : List HostEvent
one_number =
    client_accepted success
    ∷ completed 0 (arrived success (codes "       3"))
    ∷ completed 0 (arrived success (0x78 ∷ 22 ∷ 5 ∷ []))
    ∷ completed 0 (written success 12)
    ∷ []

host_run-refines_example :
    (evs : List (ServerEvent ℕ)) × Abstracts one_number evs
    × (run
          (beginning off)
          doubling
          (starting loopback number_archive response_archive doubling (create marking true))
          new_server
          evs
        ≡ returns (record {
          count = 2;
          pending = new_session 1;
          sessions =
              record {
                session_id = 0;
                point = receiving false;
                requests = 5 ∷ [];
                replies = record { transmission_status = ok; payload = 10 } ∷ [];
                sent = 1;
              }
              ∷ [];
        }))
unfolding host_run server_connection Io.create turn do_initialize async_initialize
    Io.async_initialize new_session handle_read_header handle_read_data async_write parse_header
    overwrite resize create handle_event format_header setw to_hex
host_run-refines_example =
    host_run-refines loopback number_archive response_archive doubling (beginning off)
      (create marking true) made 0
      (λ n c h. server_connection-beginning marking willing plain true [] (codes "????????") c h)
      none one_number _ refl

-- A session that has read a header; three bytes of data are to come.
abbrev reading : Peer Bytes ℕ ℕ
reading = record {
  session = record (new_session 4) { point = receiving true };
  connection = record (connection_on []) {
    inbound_header = codes "       3";
    inbound_data = 0 ∷ 0 ∷ 0 ∷ [];
  };
  cdata = 0;
  inbound = some (3, 8);
}

complete-Faults_example :
    (complete loopback number_archive response_archive doubling reading
        (arrived success (0x78 ∷ 99 ∷ 5 ∷ []))
      ≡ throws std_exception)
    ↔ Faults loopback number_archive response_archive doubling reading
        (arrived success (0x78 ∷ 99 ∷ 5 ∷ []))
        std_exception
complete-Faults_example =
    complete-Faults loopback number_archive response_archive doubling reading
      (arrived success (0x78 ∷ 99 ∷ 5 ∷ [])) std_exception

-- The first client is answered, and the second sends what the archive cannot load.
abbrev disturbed : List HostEvent
disturbed =
    client_accepted success
    ∷ client_accepted success
    ∷ completed 0 (arrived success (codes "       3"))
    ∷ completed 1 (arrived success (codes "       3"))
    ∷ completed 0 (arrived success (0x78 ∷ 22 ∷ 5 ∷ []))
    ∷ completed 1 (arrived success (0x78 ∷ 99 ∷ 5 ∷ []))
    ∷ completed 0 (written success 12)
    ∷ []

host_run-Stops_example :
    (host_run loopback number_archive response_archive doubling made 0 none disturbed
      ≡ throws std_exception)
    ↔ Stops loopback number_archive response_archive doubling made 0 none disturbed std_exception
host_run-Stops_example =
    host_run-Stops loopback number_archive response_archive doubling made 0 none disturbed
      std_exception

-- So the loop throws there, and so it ends.
disturbed_throws :
    host_run loopback number_archive response_archive doubling made 0 none disturbed
    ≡ throws std_exception
unfolding host_run server_connection Io.create turn do_initialize async_initialize
    Io.async_initialize new_session handle_read_header handle_read_data async_write parse_header
    overwrite resize create handle_event format_header setw to_hex
disturbed_throws = refl

-- A session that has started, with the connection of the tests.
abbrev started : ℕ → Peer Bytes ℕ ℕ
started n = record {
  session = record (new_session n) { point = receiving true };
  connection = record (connection_on []) { inbound_header = codes "????????" };
  cdata = 0;
  inbound = none;
}

-- The first session sends its answer.
abbrev answering : Peer Bytes ℕ ℕ
answering = record {
  session = record {
    session_id = 0;
    point = replying;
    requests = 5 ∷ [];
    replies = record { transmission_status = ok; payload = 10 } ∷ [];
    sent = 0;
  };
  connection = record (connection_on []) {
    outbound_header = codes "       4";
    outbound_data = 0x78 ∷ 22 ∷ 0 ∷ 10 ∷ [];
    inbound_header = codes "       3";
    inbound_data = 0x78 ∷ 22 ∷ 5 ∷ [];
  };
  cdata = 5;
  inbound = none;
}

host_run-Pends_example :
    Pends loopback number_archive response_archive doubling replying none answering
unfolding host_run server_connection Io.create turn do_initialize async_initialize
    Io.async_initialize new_session handle_read_header handle_read_data async_write parse_header
    overwrite resize create handle_event format_header setw to_hex
host_run-Pends_example =
    host_run-Pends loopback number_archive response_archive doubling made 0 none
      (client_accepted success
        ∷ completed 0 (arrived success (codes "       3"))
        ∷ completed 0 (arrived success (0x78 ∷ 22 ∷ 5 ∷ []))
        ∷ [])
      _ 0 answering refl refl

-- The host that a run comes to, which waits for its first client if there is none.
abbrev reached : Outcome (Host Bytes ℕ ℕ) → Host Bytes ℕ ℕ
reached (returns h) = h
reached _ = record { count = 1; waiting = started 0; peers = [] }

abbrev two_clients : List HostEvent
two_clients = client_accepted success ∷ client_accepted success ∷ []

-- The first client is answered, while another comes and the second goes away.
abbrev crossed : List HostEvent
crossed =
    completed 1 (arrived success (codes "       3"))
    ∷ completed 0 (arrived success (codes "       3"))
    ∷ client_accepted success
    ∷ completed 0 (arrived success (0x78 ∷ 22 ∷ 5 ∷ []))
    ∷ completed 1 (arrived (other 2) [])
    ∷ completed 0 (written success 12)
    ∷ []

abbrev run_from : Host Bytes ℕ ℕ → List HostEvent → Host Bytes ℕ ℕ
run_from h es = reached (turns loopback number_archive response_archive doubling made 0 h es)

abbrev begun : Host Bytes ℕ ℕ
begun = reached (host_run loopback number_archive response_archive doubling made 0 none two_clients)

host_run-own_example :
    (q : Peer Bytes ℕ ℕ) × (find_peer 0 (run_from begun crossed).peers ≡ some q)
    × (completes loopback number_archive response_archive doubling (started 0) (own 0 crossed)
        ≡ returns q)
unfolding host_run server_connection Io.create turn do_initialize async_initialize
    Io.async_initialize new_session handle_read_header handle_read_data async_write parse_header
    overwrite resize create handle_event format_header setw to_hex
host_run-own_example =
    host_run-own loopback number_archive response_archive doubling made 0 none two_clients crossed
      begun (run_from begun crossed) 0 (started 0) refl refl refl

host_run-answers_example :
    (t : Peer Bytes ℕ ℕ) × (find_peer 0 (run_from begun crossed).peers ≡ some t)
    × (t.session ≡ after (started 0).session 5 10)
    × (t.cdata ≡ 5)
    × IsReady loopback number_archive response_archive doubling t
unfolding host_run server_connection Io.create turn do_initialize async_initialize
    Io.async_initialize new_session handle_read_header handle_read_data async_write parse_header
    overwrite resize create handle_event format_header setw to_hex own
host_run-answers_example =
    host_run-answers loopback number_archive response_archive doubling made 0 none two_clients
      crossed begun (run_from begun crossed) 0 (started 0) 5 10 12 refl refl
      (record {
        reads = (true, refl);
        at_header = refl;
        filtered = create-IsFilter marking true marking-IsZlib;
        valid = refl;
      })
      number_archive-IsArchive (omega arith) (omega arith) refl refl refl
