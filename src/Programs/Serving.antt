-- ===== src/Programs/Serving.antt =====
-- The program of the calculator's server down to its transfers: TCPServer/Calculator-TCPServer.cpp
-- over the event loop of Proactor.antt.
use tcpclient_server.Prelude.{
  Option, ℕ, true, List, ◌∷◌, ◌++◌, ◌≡◌, Bool, Bytes, some, none, ◌⊎◌, ltb,
}
use tcpclient_server.Errors.{
  ErrorCode, ◌>>=◌, success, is_error, Exception, Outcome, returns, throws,
}
use tcpclient_server.Header.{parse_header}
use tcpclient_server.Filter.{Zlib}
use tcpclient_server.Response.{Response}
use tcpclient_server.Io.{Asio}
use tcpclient_server.Connection.{Archive, Connection, max_size}
use tcpclient_server.Endpoints.{server_connection}
use tcpclient_server.Session.{initializing, receiving}
use tcpclient_server.Calculator.{Doubles, ClientData, ServerData, server_action}
use tcpclient_server.Calculator.Answer.{IsValidOp}
use tcpclient_server.Proactor.{
  Peer, Completion, shaken, arrived, written, Host, HostEvent, client_accepted, completed,
  find_peer, host_run,
}
use tcpclient_server.Proactor.Faults.{Faults, header_with, data_with}
use tcpclient_server.Ssl.{ContextCall, context_calls}
use tcpclient_server.Ssl.Setup.{IsRefused}
use tcpclient_server.Io
use tcpclient_server.Programs.{
  SslConstants, server_options, Exit, exit_failure, server_exit, ServerArgs, Launch, goes_on,
  launch_exit, server_launch,
}
use tcpclient_server.Programs.Settings.{openssl_of}

module _ {F S : Type 0} (doubles : Doubles F) (now : ℕ) (asio : Asio S)
    (requests : Archive (ClientData F)) (responses : Archive (Response (ServerData F)))
    (zlib : Zlib) (k : SslConstants) (install_dir : Bytes)
    (refuses : ℕ → ContextCall → Option Exception) (listening : ℕ → Option ErrorCode)
    (sockets : ℕ → S) (headers : ℕ → Bytes) (unset : ClientData F) where
  -- The constructor of the connection of each session. What OpenSSL refuses then depends on the
  -- files that are there at that time.
  abbrev pub make : ServerArgs → ℕ → Outcome (Connection S)
  make a n =
      server_connection zlib (openssl_of k (refuses n)) (sockets n) (headers n) a.options
        a.compression

  -- The event loop of the program, from the constructor of the server on. The clock of the strategy
  -- stands at `now`, and `listening` says which ports cannot be listened on.
  unfoldable pub serves :
      ServerArgs → List HostEvent → Outcome (Host S (ClientData F) (ServerData F))
  serves a es =
      host_run asio requests responses (server_action doubles now) (make a) unset (listening a.port)
        es

  server_end : Launch ServerArgs → List HostEvent → Option Exit
  unfolding serves
  server_end (goes_on (returns a)) es = server_exit (serves a es)
  server_end l es = launch_exit l

  -- How `main` of the server ends.
  unfoldable pub server_main : List Bytes → List HostEvent → Option Exit
  unfolding server_end
  server_main argv es = server_end (server_launch k install_dir argv) es

  -- What came into the data buffer: the filter or the archive throws on it, or the request that it
  -- holds has no valid operation.
  abbrev pub IsUnanswerable : Peer S (ClientData F) (ServerData F) → Bytes → Type 0
  IsUnanswerable p bytes =
      let held = data_with asio requests responses (server_action doubles now) p bytes in
      ((x : Exception) × (p.connection.filter.input_filter held ≡ throws x))
      ⊎ ((s : Bytes) × (p.connection.filter.input_filter held ≡ returns s)
          × (((y : Exception) × ((requests.load s p.cdata).failure ≡ some y))
              ⊎ (((requests.load s p.cdata).failure ≡ none)
                  × ¬ IsValidOp (requests.load s p.cdata).value.operation)))

  -- What one client has to do to take the server down.
  abbrev pub TakesDown : Peer S (ClientData F) (ServerData F) → Completion → Type 0
  TakesDown p (shaken ec) = (p.session.point ≡ initializing) × (is_error ec ≡ true)
  TakesDown p (arrived ec bytes) =
      (ec ≡ success)
      × ((first : Bool) × (p.session.point ≡ receiving first))
      × (((p.inbound ≡ none)
            × ((size : ℕ) × (parse_header
                    (header_with asio requests responses (server_action doubles now) p bytes)
                  ≡ some size)
                × (ltb max_size size ≡ true)))
          ⊎ (((size len : ℕ) × (p.inbound ≡ some (size, len))) × IsUnanswerable p bytes))
  TakesDown p (written ec n) = ⊥

  -- The connection of a session cannot be made: OpenSSL refuses a call on its context.
  abbrev pub IsUnmade : ℕ → Type 0
  IsUnmade n =
      (e : Exception) × IsRefused (refuses n)
        (context_calls k.single_dh_use (server_options k install_dir)) e

  abbrev ServerSet : Launch ServerArgs → Type 0
  ServerSet (goes_on (returns a)) = a.options ≡ server_options k install_dir
  ServerSet _ = Unit

  -- An event at which the program ends.
  abbrev pub EndsAt : Host S (ClientData F) (ServerData F) → HostEvent → Type 0
  EndsAt u (client_accepted ec) = IsUnmade u.count
  EndsAt u (completed i c) =
      (p : Peer S (ClientData F) (ServerData F)) × (find_peer i u.peers ≡ some p) × TakesDown p c

  -- Why the event loop ends the program.
  abbrev pub EndsLoop : ServerArgs → List HostEvent → Type 0
  EndsLoop a es =
      ((ec : ErrorCode) × (listening a.port ≡ some ec))
      ⊎ IsUnmade 0
      ⊎ ((before after : List HostEvent) × (e : HostEvent) × (u : Host S (ClientData F)
            (ServerData F))
          × (es ≡ before ++ (e ∷ after))
          × (serves a before ≡ returns u)
          × EndsAt u e)

  -- Why the program of the server ends.
  abbrev pub Ends : List Bytes → List HostEvent → Type 0
  Ends argv es =
      (launch_exit (server_launch k install_dir argv) ≡ some exit_failure)
      ⊎ ((a : ServerArgs) × (server_launch k install_dir argv ≡ goes_on (returns a))
          × EndsLoop a es)
