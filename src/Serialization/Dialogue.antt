-- ===== src/Serialization/Dialogue.antt =====
-- One exchange of the calculator: a request on its way to the server's strategy, and the answer on
-- its way back to the client's. One socket carries both, first in the one direction, then in the
-- other.
use tcpclient_server.Prelude.{ℕ, ◌≡◌, ap, sym, ◌∙◌, [], ◌∷◌, ◌++◌, Bytes, length, append-nil}
use tcpclient_server.Errors.{success, returns}
use tcpclient_server.Filter.Laws.{IsFilter}
use tcpclient_server.Response.{ok, Response}
use tcpclient_server.Io.{Asio}
use tcpclient_server.Calculator.{
  Doubles, ClientData, ServerData, server_action, Actions, passed, act_on_request, act_on_response,
}
use tcpclient_server.Calculator.Answer.{response_checked}
use tcpclient_server.Connection.{Archive, Connection, write, read}
use tcpclient_server.Connection.Stream.{
  IsArchiveOn, IsArchiveOn-Loads, IsPipe, wire, Fits, IsConnection,
}
use tcpclient_server.Connection.Sync.{write-Writes, read-Reads}

-- The values of doubles that a text archive loads again are those that `IsFinite` stands for.
abbrev pub HasFiniteOperands : {F : Type 0} → (F → Type 0) → ClientData F → Type 0
HasFiniteOperands IsFinite d = IsFinite d.operand1 × IsFinite d.operand2

abbrev pub HasFiniteResult : {F : Type 0} → (F → Type 0) → Response (ServerData F) → Type 0
HasFiniteResult IsFinite r = IsFinite r.payload.result

module _ {S F : Type 0} (asio : Asio S) (pending : S → Bytes) (doubles : Doubles F)
    (requests : Archive (ClientData F)) (responses : Archive (Response (ServerData F)))
    (IsFinite : F → Type 0) where
  -- A request with an answer that is written by the client is the request that the server reads;
  -- and the server's answer to it, once written, is the response that the client reads without an
  -- error, and the one on which its assertion holds. The operands and the result are finite, as
  -- the archives load no others; both messages fit, both ends use the same filter, and nothing else
  -- is on the way.
  pub dialogue :
      (client server : Connection S) (d old : ClientData F) (unset : Response (ServerData F))
      (now : ℕ) (a : ServerData F) (acts : Actions F)
      → IsArchiveOn (HasFiniteOperands IsFinite) requests
      → IsArchiveOn (HasFiniteResult IsFinite) responses
      → IsPipe asio pending
      → IsFilter client.filter
      → server.filter ≡ client.filter
      → IsConnection client
      → IsConnection server
      → let reply : Response (ServerData F) = record { transmission_status = ok; payload = a } in
        let w = write asio requests client d success in
        let r = read asio requests (record server { socket = w.connection.socket }) old in
        let v = write asio responses r.connection reply success in
        let q = read asio responses (record w.connection { socket = v.connection.socket }) unset in
        HasFiniteOperands IsFinite d
        → HasFiniteResult IsFinite reply
        → Fits requests client.filter d
        → Fits responses client.filter reply
        → pending client.socket ≡ []
        → server_action doubles now d ≡ returns a
        → (r.value ≡ d)
          × (server_action doubles now r.value ≡ returns q.value.payload)
          × (r.ec ≡ success)
          × (q.ec ≡ success)
          × (act_on_response (act_on_request acts d) q.value
              ≡ passed (record {
                padding = d.padding;
                requested = acts.requested ++ (d.id ∷ []);
                answered = acts.answered ++ ((d.id, a.result) ∷ []);
              }))
  dialogue client server d old unset now a acts law1 law2 pipe filter same valid_c valid_s fin1 fin2
        fits1 fits2 empty answer =
      let reply : Response (ServerData F) = record { transmission_status = ok; payload = a } in
      let w = write asio requests client d success in
      let w' = write-Writes asio requests pending client d success pipe fits1 in
      let s = record server { socket = w.connection.socket } in
      let r = read asio requests s old in
      let r' =
        read-Reads asio requests pending s d old []
          (IsArchiveOn-Loads (HasFiniteOperands IsFinite) requests d law1 fin1) (rw same filter)
          pipe.stream valid_s (rw same fits1)
          (w'.sent ∙ rw (empty, same) (sym (append-nil (wire requests client.filter d)))) in
      let v = write asio responses r.connection reply success in
      let v' =
        write-Writes asio responses pending r.connection reply success pipe
          (rw (r'.same_filter, same) fits2) in
      let q' =
        read-Reads asio responses pending (record w.connection { socket = v.connection.socket })
          reply unset [] (IsArchiveOn-Loads (HasFiniteResult IsFinite) responses reply law2 fin2)
          (rw w'.same_filter filter) pipe.stream (ap length w'.kept ∙ valid_c)
          (rw w'.same_filter fits2)
          (v'.sent
            ∙ rw (r'.left, r'.same_filter, same, w'.same_filter)
                (sym (append-nil (wire responses client.filter reply)))) in
      (
        r'.value_read,
        rw (r'.value_read, q'.value_read) answer,
        r'.no_error,
        q'.no_error,
        rw q'.value_read (response_checked doubles acts now d a answer),
      )
