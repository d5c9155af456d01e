-- ===== src/Client/Connector.antt =====
-- ClientServerFramework/Client/Connector.hpp: opening the connection, and one request with its
-- reply. The archives of the request's type and of the response's type are parameters.
use tcpclient_server.Prelude.{
  ℕ, ◌≡◌, inl, inr, ◌∙◌, arith, Bool, true, false, List, [], ◌∷◌, Option, none, some, not, ◌++◌,
  if◌then◌else◌, Bool-cases,
}
use tcpclient_server.Errors.{
  ErrorCode, success, is_error, Outcome, returns, throws, undefined, system_error, thrown_code,
}
use tcpclient_server.Response.{Response, ok}
use tcpclient_server.Header.{parse_header}
use tcpclient_server.Io.{Io, ssl, unsecured, Asio, Connected, client, connect}
use tcpclient_server.Io.Strategy.{connect_ssl}
use tcpclient_server.Endpoints
use tcpclient_server.Connection.{Archive, Connection, write, read}
use tcpclient_server.Connection.Faults.{header_code, arrived, read_bad_header}
use tcpclient_server.Client.{
  ClientPoint, Opening, opened, open_threw, System, replied, popping, failed, testing,
  receive_reply, open_connection, act_on, verdict,
}

-- `point != endpoint_iterator()`.
abbrev is_point : Option ℕ → Bool
is_point none = false
is_point (some p) = true

module _ {S : Type 0} (asio : Asio S) where
  open_with : Connection S → Outcome (Connected S) → Connection S × Opening
  open_with c (returns r) = (record c { socket = r.socket }, opened r.ec (is_point r.endpoint))
  open_with c (throws e) = (c, open_threw e)
  -- `connect` has no undefined outcome.
  open_with c undefined = (c, opened success false)

  -- `open`, with the end-points that the query resolves to.
  pub open_to : Connection S → List ℕ → Connection S × Opening
  unfolding open_with
  open_to c endpoints = open_with c (Endpoints.connect asio c endpoints)

-- The result of `send`. The response is undefined in the case of an error.
pub record Sent (S R : Type 0) : Type 0 where
  pub connection : Connection S
  pub ec : ErrorCode
  pub response : R
  pub received_length : Outcome ℕ

module _ {S D R : Type 0} (asio : Asio S) (requests : Archive D) (responses : Archive R) where
  -- `send`. `unset` is the response before anything is read into it.
  pub send : Connection S → D → R → Sent S R
  send c d unset =
      let w = write asio requests c d success in
      if is_error w.ec
      then record {
        connection = w.connection;
        ec = w.ec;
        response = unset;
        received_length = returns 0;
      }
      else let r = read asio responses w.connection unset in
        record {
          connection = r.connection;
          ec = r.ec;
          response = r.value;
          received_length = r.length;
        }

  -- A reply with a header that is no number ends `send` without an error and with the response
  -- unset.
  pub send_bad_header :
      (c : Connection S) (d : D) (unset : R)
      → let w = write asio requests c d success in
        w.ec ≡ success
        → header_code asio responses w.connection ≡ success
        → parse_header (arrived asio responses w.connection) ≡ none
        → ((send c d unset).ec ≡ success)
          × ((send c d unset).response ≡ unset)
          × ((send c d unset).received_length ≡ returns 0)
  unfolding send
  send_bad_header c d unset sent header bad =
      let w = write asio requests c d success in
      let (ec, len, value, _) = read_bad_header asio responses w.connection unset header bad in
      (ground arith, ground arith, ground arith)

module _ {S D R I : Type 0} (asio : Asio S) (requests : Archive D)
    (responses : Archive (Response R)) where
  -- If a request is sent without an error, the header of the reply arrives without an error but
  -- is no number, and the status in the response that was never set happens to be OK, the client
  -- takes that response for the server's, hands it to its strategy, and is about to pop the
  -- request.
  pub garbled_reply_accepted :
      (s : System I D R) (c : Connection S) (d : D) (unset : Response R)
      → let w = write asio requests c d success in
        let sent = send asio requests responses c d unset in
        w.ec ≡ success
        → header_code asio responses w.connection ≡ success
        → parse_header (arrived asio responses w.connection) ≡ none
        → unset.transmission_status ≡ ok
        → ((receive_reply s d (replied sent.ec sent.response)).client ≡ popping)
          × ((receive_reply s d (replied sent.ec sent.response)).responses
              ≡ s.responses ++ ((d, unset.payload) ∷ []))
  unfolding receive_reply act_on verdict
  garbled_reply_accepted s c d unset sent header bad status =
      let (ec, response, len) = send_bad_header asio requests responses c d unset sent header bad in
      (ground arith, ground arith)

-- `boost::asio::connect` reports an error exactly where it has no end-point to return.
pub record IsConnect {S : Type 0} (asio : Asio S) : Type 0 where
  pub found :
      (begin : List ℕ) (s : S)
      → is_point (asio.connect begin s).endpoint ≡ not (is_error (asio.connect begin s).ec)

abbrev pub Opens : {D : Type 0} → ClientPoint D → Type 0
Opens testing = Unit
Opens (failed (system_error ec)) = is_error ec ≡ true
Opens (failed (thrown_code ec)) = is_error ec ≡ true
Opens _ = ⊥

module _ {S I D R : Type 0} (asio : Asio S) where
  opened-Opens :
      (s : System I D R) (ec : ErrorCode) (point : Option ℕ)
      → is_point point ≡ not (is_error ec)
      → Opens (open_connection s (opened ec (is_point point))).client
  unfolding open_connection
  opened-Opens s ec point e = elim (Bool-cases (is_error ec)) [
    | inl bad ↦ rw bad bad
    | inr fine ↦ let there : is_point point ≡ true = ground arith in rw (fine, there) tt
  ]

  connect-Opens :
      (s : System I D R) (c : Connection S) (io : Io) (endpoints : List ℕ) (socket : S)
      → IsConnect asio
      → Opens
          (open_connection s (open_with asio c (connect asio io endpoints client socket)).1).client
  unfolding open_with
  connect-Opens s c unsecured endpoints socket law =
      unfold connect in
      opened-Opens s (asio.connect endpoints socket).ec (asio.connect endpoints socket).endpoint
        (law.found endpoints socket)
  connect-Opens s c (ssl io) endpoints socket law =
      elim (connect_ssl asio io endpoints client socket) [
        | inl (bad, e) ↦ rw e (
            opened-Opens s (asio.connect endpoints socket).ec
              (asio.connect endpoints socket).endpoint (law.found endpoints socket))
        | inr (inl (fine, bad, e)) ↦ rw e (unfold open_connection in bad)
        | inr (inr (fine, done, e)) ↦
            let opened' = asio.connect endpoints socket in
            let there : is_point opened'.endpoint
                ≡ not (is_error (asio.handshake client opened'.socket).ec) =
              law.found endpoints socket ∙ (rw (fine, done)) in
            rw e (opened-Opens s (asio.handshake client opened'.socket).ec opened'.endpoint there)
      ]

  -- Opening a connection brings the client to `listen`, or ends it with the code of the failure;
  -- the test behind it, for an end-point that is missing without an error, never succeeds.
  pub open_to-Opens :
      (s : System I D R) (c : Connection S) (endpoints : List ℕ)
      → IsConnect asio
      → Opens (open_connection s (open_to asio c endpoints).1).client
  unfolding open_to Endpoints.connect
  open_to-Opens s c endpoints law = connect-Opens s c c.io endpoints c.socket law
