-- ===== src/Conversation/Answers.antt =====
-- Every request of a conversation is answered by the server's strategy.
use tcpclient_server.Prelude.{
  ◌+◌, ◌≡◌, refl, sym, ap, ◌∙◌, Bool, false, List, [], ◌∷◌, ◌++◌, map, Bytes, length, arith,
  append-nil, append_assoc,
}
use tcpclient_server.Errors.{success, Outcome, returns}
use tcpclient_server.Response.{Response}
use tcpclient_server.Filter.{Filter}
use tcpclient_server.Filter.Laws.{IsFilter}
use tcpclient_server.Io.{Asio}
use tcpclient_server.Connection.{Archive, write, read}
use tcpclient_server.Connection.Stream.{
  IsArchive, Loads, IsArchive-Loads, IsPipe, Fits, IsConnection, wire,
}
use tcpclient_server.Connection.Sync.{write-Writes, read-Reads}
use tcpclient_server.Session.{receiving}
use tcpclient_server.Conversation.{World, exchange, conversation}
use tcpclient_server.Conversation.Turn.{reply_of, after, serve_one-answers}

-- Both ends use the filter `f`, nothing is on the way, and the session waits for a request.
pub record IsReady {S C D : Type 0} (pending : S → Bytes) (f : Filter) (w : World S C D)
    : Type 0 where
  pub client_filter : w.client.filter ≡ f
  pub server_filter : w.server.filter ≡ f
  pub client_valid : IsConnection w.client
  pub server_valid : IsConnection w.server
  pub idle : pending w.net ≡ []
  pub waits : (first : Bool) × (w.session.point ≡ receiving first)

module _ {S C D : Type 0} (asio : Asio S) (requests : Archive C) (responses : Archive (Response D))
    (strategy : C → Outcome D) (pending : S → Bytes) where
  -- A request with an answer, where both messages fit.
  abbrev pub IsServed : Filter → C → D → Type 0
  IsServed f d a = Fits requests f d × Fits responses f (reply_of a) × (strategy d ≡ returns a)

  abbrev pub AllServed : Filter → (C → D) → List C → Type 0
  AllServed f answer [] = Unit
  AllServed f answer (d ∷ ds) = IsServed f d (answer d) × AllServed f answer ds

  -- The archives load every request and every answer again.
  abbrev pub AllLoaded : (C → D) → List C → Type 0
  AllLoaded answer [] = Unit
  AllLoaded answer (d ∷ ds) =
      Loads requests d × Loads responses (reply_of (answer d)) × AllLoaded answer ds

  IsArchive-AllLoaded :
      (answer : C → D) (ds : List C)
      → IsArchive requests
      → IsArchive responses
      → AllLoaded answer ds
  IsArchive-AllLoaded answer [] law1 law2 = tt
  IsArchive-AllLoaded answer (d ∷ ds) law1 law2 = (
    IsArchive-Loads requests d law1,
    IsArchive-Loads responses (reply_of (answer d)) law2,
    IsArchive-AllLoaded answer ds law1 law2,
  )

  -- What a conversation comes to: every request is answered without an error by a response that
  -- is marked OK and holds the strategy's answer, in the order of the requests; and the session
  -- has recorded the requests and the replies, has sent all of them, and waits for the next one.
  pub record Answered (f : Filter) (w w' : World S C D) (answer : C → D) (ds : List C)
      : Type 0 where
    pub ready : IsReady pending f w'
    pub requested : w'.session.requests ≡ w.session.requests ++ ds
    pub replied : w'.session.replies ≡ w.session.replies ++ map (λ d. reply_of (answer d)) ds
    pub sent : w'.session.sent ≡ w.session.sent + length ds

  module _ (pipe : IsPipe asio pending) (f : Filter) (filter : IsFilter f) where
    exchange_answers :
        (w : World S C D) (d old : C) (unset : Response D) (a : D)
        → IsReady pending f w
        → Loads requests d
        → Loads responses (reply_of a)
        → IsServed f d a
        → (w' : World S C D) × (exchange asio requests responses strategy w d old unset
            ≡ returns (w', success, reply_of a))
          × IsReady pending f w'
          × (w'.session ≡ after w.session d a)
    unfolding exchange
    exchange_answers w d old unset a v law1 law2 (h, k, answer) =
        let c = record w.client { socket = w.net } in
        let sent = write asio requests c d success in
        let ws = write-Writes asio requests pending c d success pipe (rw v.client_filter h) in
        let s = record w.server { socket = sent.connection.socket } in
        let front : pending sent.connection.socket ≡ wire requests s.filter d =
          ws.sent ∙ rw (v.idle, v.client_filter, v.server_filter) refl in
        let (s', served, back, same, valid) =
          serve_one-answers asio requests responses strategy pending pipe s w.session v.waits.0 d
            old a law1 (rw v.server_filter filter) v.server_valid (rw v.server_filter h)
            (rw v.server_filter k) front v.waits.1 answer in
        let c' = record sent.connection { socket = s'.socket } in
        let same_c : c'.filter ≡ f = ws.same_filter ∙ v.client_filter in
        let reply : pending s'.socket ≡ wire responses c'.filter (reply_of a) ++ [] =
          back ∙ rw (v.server_filter, same_c) (sym (append-nil (wire responses f (reply_of a)))) in
        let r =
          read-Reads asio responses pending c' (reply_of a) unset [] law2 (rw same_c filter)
            pipe.stream (ap length ws.kept ∙ v.client_valid) (rw same_c k) reply in
        let end = read asio responses c' unset in
        (
          record {
            net = end.connection.socket;
            client = end.connection;
            server = s';
            session = after w.session d a;
          },
          rw (served, r.no_error, r.value_read) refl,
          record {
            client_filter = r.same_filter ∙ same_c;
            server_filter = same ∙ v.server_filter;
            client_valid = r.valid;
            server_valid = valid;
            idle = r.left;
            waits = (false, refl);
          },
          refl,
        )

    -- A conversation in which the archives load the requests and the answers at hand again.
    pub conversation_served :
        (w : World S C D) (answer : C → D) (ds : List C) (old : C) (unset : Response D)
        → IsReady pending f w
        → AllLoaded answer ds
        → AllServed f answer ds
        → (w' : World S C D) × (conversation asio requests responses strategy w ds old unset
            ≡ returns (w', map (λ d. (success, reply_of (answer d))) ds))
          × Answered f w w' answer ds
    unfolding conversation
    conversation_served w answer [] old unset v l h = (
      w,
      refl,
      record {
        ready = v;
        requested = sym (append-nil w.session.requests);
        replied = sym (append-nil w.session.replies);
        sent = omega arith;
      },
    )
    conversation_served w answer (d ∷ ds) old unset v (l, l', ls) (one, more) =
        let (u, first, ready, turn) = exchange_answers w d old unset (answer d) v l l' one in
        let (w', rest, x) = conversation_served u answer ds old unset ready ls more in
        (
          w',
          rw (first, rest) refl,
          record {
            ready = x.ready;
            requested = x.requested ∙ rw turn (append_assoc w.session.requests (d ∷ []) ds);
            replied =
                x.replied
                ∙ rw turn (
                    append_assoc w.session.replies (reply_of (answer d) ∷ [])
                      (map (λ e. reply_of (answer e)) ds));
            sent = x.sent ∙ rw turn (omega arith);
          },
        )

  -- A conversation over a reliable network, with both ends on one filter and a session that
  -- waits: if every request has an answer and all messages fit, every request is sent, received
  -- by the session, answered by the strategy, sent back and read by the client, without an error
  -- and in order; and the session then waits for the next request, with all of them in its
  -- record.
  pub conversation_answers :
      (pipe : IsPipe asio pending) (law1 : IsArchive requests) (law2 : IsArchive responses)
      (f : Filter) (filter : IsFilter f) (w : World S C D) (answer : C → D) (ds : List C) (old : C)
      (unset : Response D)
      → IsReady pending f w
      → AllServed f answer ds
      → (w' : World S C D) × (conversation asio requests responses strategy w ds old unset
          ≡ returns (w', map (λ d. (success, reply_of (answer d))) ds))
        × Answered f w w' answer ds
  conversation_answers pipe law1 law2 f filter w answer ds old unset v h =
      conversation_served pipe f filter w answer ds old unset v
        (IsArchive-AllLoaded answer ds law1 law2) h
