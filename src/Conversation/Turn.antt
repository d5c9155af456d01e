-- ===== src/Conversation/Turn.antt =====
-- The server's part of an exchange, over a reliable network.
use tcpclient_server.Prelude.{
  ℕ, suc, ◌≡◌, refl, sym, ap, ◌∙◌, Bool, false, List, [], ◌∷◌, ◌++◌, Bytes, append-nil,
}
use tcpclient_server.Errors.{success, Outcome, returns, ◌>>=◌}
use tcpclient_server.Response.{Response, ok}
use tcpclient_server.Filter.Laws.{IsFilter}
use tcpclient_server.Io.{Asio, write_impl}
use tcpclient_server.Connection.{Archive, Connection, read, async_write, writing}
use tcpclient_server.Connection.Stream.{Loads, IsPipe, Fits, IsConnection, wire}
use tcpclient_server.Connection.Sync.{read-Reads}
use tcpclient_server.Connection.Arrival.{async_read-Reads}
use tcpclient_server.Connection.Departure.{message, prepared, async_write-message, message-wire}
use tcpclient_server.Session.{Session, replying, receiving, received, handle_event}
use tcpclient_server.Session.Turns.{handle_event-received, handle_event-delivered}
use tcpclient_server.Conversation.{starts, send_out, deliver, serve_one}

abbrev pub reply_of : {D : Type 0} → D → Response D
reply_of a = record { transmission_status = ok; payload = a }

-- A session that has a request and its answer in its record, and writes the answer.
abbrev answering : {C D : Type 0} → Session C D → C → D → Session C D
answering s d a = record s {
  point = replying;
  requests = s.requests ++ (d ∷ []);
  replies = s.replies ++ (reply_of a ∷ []);
}

-- The session when the answer has been sent.
abbrev pub after : {C D : Type 0} → Session C D → C → D → Session C D
after s d a = record s {
  point = receiving false;
  requests = s.requests ++ (d ∷ []);
  replies = s.replies ++ (reply_of a ∷ []);
  sent = suc s.sent;
}

module _ {S C D : Type 0} (asio : Asio S) (requests : Archive C) (responses : Archive (Response D))
    (strategy : C → Outcome D) (pending : S → Bytes) (pipe : IsPipe asio pending) where
  deliver-snoc :
      (c : Connection S) (s : Session C D) (rs : List (Response D)) (r : Response D)
      → deliver asio requests responses strategy c s replying (rs ++ (r ∷ []))
        ≡ send_out asio requests responses strategy
            (async_write asio responses c r).0
            s
            (async_write asio responses c r).1
  unfolding deliver
  deliver-snoc c s [] r = refl
  deliver-snoc c s (x ∷ []) r = refl
  deliver-snoc c s (x ∷ y ∷ rs) r = deliver-snoc c s (y ∷ rs) r

  -- The pending write completes.
  send_out-message :
      (c : Connection S) (s : Session C D) (t : Response D)
      → s.point ≡ replying
      → let w = write_impl asio c.io (message asio responses pending c t) c.socket in
        send_out asio requests responses strategy
          (prepared asio responses pending c t)
          s
          (writing (message asio responses pending c t))
        ≡ returns (
          record (prepared asio responses pending c t) { socket = w.socket },
          record s { point = receiving false; sent = suc s.sent },
        )
  unfolding send_out
  send_out-message c s t at =
      rw ((message-wire asio responses pending c t pipe).0)
        (rw (handle_event-delivered strategy _ s _ at) refl)

  -- The handler has the request: it asks the strategy and starts its write, which completes.
  received-delivered :
      (c : Connection S) (s : Session C D) (first : Bool) (n : ℕ) (d : C) (a : D)
      → Fits responses c.filter (reply_of a)
      → s.point ≡ receiving first
      → strategy d ≡ returns a
      → let w = write_impl asio c.io (message asio responses pending c (reply_of a)) c.socket in
        (do
          s' ←
              handle_event strategy
                (starts asio requests responses strategy c)
                s
                (received success n d)
          deliver asio requests responses strategy c s' s'.point s'.replies)
        ≡ returns (
          record (prepared asio responses pending c (reply_of a)) { socket = w.socket },
          after s d a,
        )
  received-delivered c s first n d a h at answer =
      let start = async_write-message asio responses pending c (reply_of a) h in
      rw
        (handle_event-received strategy (starts asio requests responses strategy c) s first n d a
          (message asio responses pending c (reply_of a)) at answer (ap (λ x. x.1) start))
        (deliver-snoc c (answering s d a) s.replies (reply_of a)
          ∙ rw start (send_out-message c (answering s d a) (reply_of a) refl))

  -- A request at the front of the stream that the strategy answers is answered by the session, in
  -- one turn, and the answer is what then stands on the stream.
  pub serve_one-answers :
      (c : Connection S) (s : Session C D) (first : Bool) (d old : C) (a : D)
      → Loads requests d
      → IsFilter c.filter
      → IsConnection c
      → Fits requests c.filter d
      → Fits responses c.filter (reply_of a)
      → pending c.socket ≡ wire requests c.filter d
      → s.point ≡ receiving first
      → strategy d ≡ returns a
      → (c' : Connection S) × (serve_one asio requests responses strategy c s old
          ≡ returns (c', after s d a))
        × (pending c'.socket ≡ wire responses c.filter (reply_of a))
        × (c'.filter ≡ c.filter)
        × IsConnection c'
  unfolding serve_one
  serve_one-answers c s first d old a law filter valid h k e at answer =
      let front : pending c.socket ≡ wire requests c.filter d ++ [] =
        e ∙ sym (append-nil (wire requests c.filter d)) in
      let r = read asio requests c old in
      let got = read-Reads asio requests pending c d old [] law filter pipe.stream valid h front in
      let reported =
        async_read-Reads asio requests pending c d old [] law filter pipe.stream valid h front in
      let fits : Fits responses r.connection.filter (reply_of a) = rw got.same_filter k in
      let w =
        write_impl asio r.connection.io (message asio responses pending r.connection (reply_of a))
          r.connection.socket in
      let (sent, out) = message-wire asio responses pending r.connection (reply_of a) pipe in
      (
        record (prepared asio responses pending r.connection (reply_of a)) { socket = w.socket },
        rw (reported, got.value_read)
            (received-delivered r.connection s first _ d a fits at answer),
        out ∙ rw (got.left, got.same_filter) refl,
        got.same_filter,
        got.valid,
      )
