-- ===== src/Proactor/Exchange.antt =====
-- A request that a session receives in two transfers, and its answer on the way back.
use tcpclient_server.Prelude.{
  ℕ, ◌≡◌, refl, sym, ap, ◌∙◌, List, [], ◌∷◌, ◌++◌, none, some, length, false, Bool,
}
use tcpclient_server.Errors.{success, Outcome, returns, returns-injective}
use tcpclient_server.Header.{header_length, setw, to_hex}
use tcpclient_server.Header.Format.{format_header-some, length-format_header}
use tcpclient_server.Response.{Response}
use tcpclient_server.Filter.Laws.{IsFilter}
use tcpclient_server.Io.{Asio}
use tcpclient_server.Connection.{Archive, Connection}
use tcpclient_server.Connection.Stream.{IsArchive, Fits, IsConnection, payload}
use tcpclient_server.Connection.Departure.{prepared}
use tcpclient_server.Session.{replying, receiving}
use tcpclient_server.Conversation.Turn.{reply_of, after}
use tcpclient_server.Proactor.{Peer, arrived, written, Host, HostEvent, find_peer, turns, host_run}
use tcpclient_server.Proactor.Isolation.{own, completes, completes-next, host_run-own}
use tcpclient_server.Proactor.Transfers.{header_comes, data_comes, answer_sent}
use tcpclient_server.Errors.{ErrorCode}
use tcpclient_server.Prelude.{Option}

module _ {S C D : Type 0} (asio : Asio S) (requests : Archive C) (responses : Archive (Response D))
    (strategy : C → Outcome D) where
  -- A session whose connection waits for the header of a request.
  pub record IsReady (p : Peer S C D) : Type 0 where
    pub reads : (first : Bool) × (p.session.point ≡ receiving first)
    pub at_header : p.inbound ≡ none
    pub filtered : IsFilter p.connection.filter
    pub valid : IsConnection p.connection

  -- A request that the strategy answers, and whose message and answer fit, comes in two transfers,
  -- and the answer is sent: then the session has received that request, has answered it with what
  -- the strategy returned, and waits for the next one.
  pub completes-answers :
      (p : Peer S C D) (d : C) (a : D) (n : ℕ)
      → IsReady p
      → IsArchive requests
      → Fits requests p.connection.filter d
      → Fits responses p.connection.filter (reply_of a)
      → strategy d ≡ returns a
      → let bytes = payload requests p.connection.filter d in
        (t : Peer S C D) × (completes asio requests responses strategy p (
            arrived success (setw header_length (to_hex (length bytes)))
            ∷ arrived success bytes
            ∷ written success n
            ∷ [])
          ≡ returns t)
        × (t.session ≡ after p.session d a)
        × (t.cdata ≡ d)
        × IsReady t
  unfolding completes
  completes-answers p d a n ready law small fits answer =
      let (first, at) = ready.reads in
      let bytes = payload requests p.connection.filter d in
      let header = setw header_length (to_hex (length bytes)) in
      let (buffer, came, sized) =
        header_comes asio requests responses strategy p first bytes at ready.at_header ready.valid
          small in
      let q = record p {
        connection = record p.connection { inbound_header = header; inbound_data = buffer };
        inbound = some (length bytes, header_length);
      } in
      let read =
        data_comes asio requests responses strategy q first d a (length bytes) header_length at refl
          law ready.filtered sized fits answer in
      let r = record q {
        session = record p.session {
          point = replying;
          requests = p.session.requests ++ (d ∷ []);
          replies = p.session.replies ++ (reply_of a ∷ []);
        };
        connection =
            prepared asio responses (λ s. []) (record q.connection { inbound_data = bytes })
              (reply_of a);
        cdata = d;
        inbound = none;
      } in
      let t = record r { session = after p.session d a } in
      (
        t,
        completes-next asio requests responses strategy p q (arrived success header)
              (arrived success bytes ∷ written success n ∷ []) came
            ∙ (completes-next asio requests responses strategy q r (arrived success bytes)
                  (written success n ∷ []) read
                ∙ completes-next asio requests responses strategy r t (written success n) []
                    (answer_sent asio requests responses strategy r n refl)),
        refl,
        refl,
        record {
          reads = (false, refl);
          at_header = refl;
          filtered = ready.filtered;
          valid = length-format_header _ (format_header-some _ small);
        },
      )

  module _ (make : ℕ → Outcome (Connection S)) (unset : C) where
    -- On a running server, however the completions of the other sessions come between: a session
    -- that waits for a request goes through the two transfers of a message and the end of its
    -- write. If the strategy answers the request, and the message and the answer fit, the session
    -- has received that request, has answered it with what the strategy returned, and waits for the
    -- next one. The other sessions are assumed not to end the event loop meanwhile.
    pub host_run-answers :
        (listening : Option ErrorCode) (before es : List HostEvent) (h g : Host S C D) (i : ℕ)
        (p : Peer S C D) (d : C) (a : D) (n : ℕ)
        → host_run asio requests responses strategy make unset listening before ≡ returns h
        → find_peer i h.peers ≡ some p
        → IsReady p
        → IsArchive requests
        → Fits requests p.connection.filter d
        → Fits responses p.connection.filter (reply_of a)
        → strategy d ≡ returns a
        → let bytes = payload requests p.connection.filter d in
          own i es
            ≡ arrived success (setw header_length (to_hex (length bytes)))
              ∷ arrived success bytes
              ∷ written success n
              ∷ []
          → turns asio requests responses strategy make unset h es ≡ returns g
          → (t : Peer S C D) × (find_peer i g.peers ≡ some t)
            × (t.session ≡ after p.session d a)
            × (t.cdata ≡ d)
            × IsReady t
    host_run-answers listening before es h g i p d a n ran found ready law small fits answer mine
          k =
        let (q, there, whole) =
          host_run-own asio requests responses strategy make unset listening before es h g i p ran
            found k in
        let (t, done, session, kept, again) =
          completes-answers p d a n ready law small fits answer in
        let same : t ≡ q =
          returns-injective
            (sym done ∙ (ap (completes asio requests responses strategy p) (sym mine) ∙ whole)) in
        (t, there ∙ ap some (sym same), session, kept, again)
