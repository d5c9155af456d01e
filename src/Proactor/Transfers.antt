-- ===== src/Proactor/Transfers.antt =====
-- A message that a session receives in two transfers, and the end of its write.
use tcpclient_server.Prelude.{
  ℕ, ◌+◌, ◌≡◌, refl, sym, ap, ◌∙◌, [], ◌∷◌, ◌++◌, Bytes, none, some, length, drop, drop-append,
  drop-all, suc, false, arith, Bool, ◌<◌, ◌^◌,
}
use tcpclient_server.Errors.{success, Outcome, returns, ◌>>=◌}
use tcpclient_server.Header.{header_length, setw, to_hex}
use tcpclient_server.Header.Format.{format_header-some, length-format_header}
use tcpclient_server.Header.RoundTrip.{parse_header-setw}
use tcpclient_server.Response.{Response}
use tcpclient_server.Filter.Laws.{IsFilter}
use tcpclient_server.Io.{Asio}
use tcpclient_server.Connection.{
  Archive, Connection, AsyncResult, HeaderStep, handle_read_header, handle_read_data,
}
use tcpclient_server.Connection.Stream.{IsArchive, Fits, IsConnection, payload, overwrite_all}
use tcpclient_server.Connection.Departure.{message, prepared, async_write-message}
use tcpclient_server.Connection.Raised.{handle_read_header_sized, handle_read_data_lem}
use tcpclient_server.Session.{SessionPoint, replying, receiving, received, Session}
use tcpclient_server.Session.Turns.{handle_event-received, handle_event-delivered}
use tcpclient_server.Conversation.Turn.{reply_of}
use tcpclient_server.Proactor.{
  Peer, Completion, arrived, written, start, outbound, notify, after_header, header_arrived,
  data_arrived, bytes_arrived, complete_at, complete,
}

module _ {S C D : Type 0} (asio : Asio S) (requests : Archive C) (responses : Archive (Response D))
    (strategy : C → Outcome D) where
  complete-at :
      (point : SessionPoint) (p : Peer S C D) (e : Completion)
      → p.session.point ≡ point
      → complete asio requests responses strategy p e
        ≡ complete_at asio requests responses strategy point p e
  unfolding complete
  complete-at point p e at = ap (λ t. complete_at asio requests responses strategy t p e) at

  -- The header comes: the data is to come, into a buffer of its size.
  pub header_comes :
      (p : Peer S C D) (first : Bool) (bytes : Bytes)
      → p.session.point ≡ receiving first
      → p.inbound ≡ none
      → IsConnection p.connection
      → length bytes < 2 ^ 32
      → (buffer : Bytes) × (complete asio requests responses strategy p
            (arrived success (setw header_length (to_hex (length bytes))))
          ≡ returns (record p {
            connection = record p.connection {
              inbound_header = setw header_length (to_hex (length bytes));
              inbound_data = buffer;
            };
            inbound = some (length bytes, header_length);
          }))
        × (length buffer ≡ length bytes)
  unfolding complete_at bytes_arrived header_arrived
  header_comes p first bytes at here valid small =
      let header = setw header_length (to_hex (length bytes)) in
      let size : length header ≡ header_length =
        length-format_header _ (format_header-some _ small) in
      let filled = overwrite_all header p.connection.inbound_header (valid ∙ sym size) in
      let (buffer, handled, sized) =
        handle_read_header_sized asio requests (record p.connection { inbound_header = header })
          header_length (length bytes)
          (parse_header-setw header_length (length bytes) (omega arith)) (omega arith) in
      let handle : Bytes → ℕ → Connection S × Outcome HeaderStep = λ h n.
        handle_read_header asio requests (record p.connection { inbound_header = h }) success n in
      let next : Connection S × Outcome HeaderStep → Outcome (Peer S C D) =
        λ r. after_header asio requests responses strategy (record p { connection = r.0 }) r.1 in
      (
        buffer,
        complete-at (receiving first) p (arrived success header) at
            ∙ (ap (λ i. bytes_arrived asio requests responses strategy p i success header) here
                ∙ (ap (λ h. next (handle h (length header))) filled
                    ∙ (ap (λ n. next (handle header n)) size ∙ ap next handled))),
        sized,
      )

  -- The session has the request, and sends the answer.
  notify-answers :
      (p : Peer S C D) (first : Bool) (n : ℕ) (d : C) (a : D)
      → p.session.point ≡ receiving first
      → Fits responses p.connection.filter (reply_of a)
      → strategy d ≡ returns a
      → notify asio requests responses strategy p (received success n d)
        ≡ returns (record p {
          session = record p.session {
            point = replying;
            requests = p.session.requests ++ (d ∷ []);
            replies = p.session.replies ++ (reply_of a ∷ []);
          };
          connection = prepared asio responses (λ s. []) p.connection (reply_of a);
          inbound = none;
        })
  unfolding notify outbound
  notify-answers p first n d a at fits answer =
      let c = p.connection in
      let started = async_write-message asio responses (λ s. []) c (reply_of a) fits in
      let s : Session C D = record p.session {
        point = replying;
        requests = p.session.requests ++ (d ∷ []);
        replies = p.session.replies ++ (reply_of a ∷ []);
      } in
      let keep : Connection S → Outcome (Peer S C D) =
        λ c'. returns (record p { session = s; connection = c'; inbound = none }) in
      let tell : Session C D → Outcome (Peer S C D) = λ t. returns (record p {
        session = t;
        connection =
            outbound asio requests responses strategy c (drop (length p.session.replies) t.replies);
        inbound = none;
      }) in
      ap (λ o. o >>= tell)
        (handle_event-received strategy (start asio requests responses strategy c) p.session first n
          d a (message asio responses (λ x. []) c (reply_of a)) at answer (ap (λ x. x.1) started))
      ∙ (ap (λ l. keep (outbound asio requests responses strategy c l))
            (drop-append p.session.replies (reply_of a ∷ []) (length p.session.replies) refl)
          ∙ ap (λ x. keep x.0) started)

  -- The data comes.
  pub data_comes :
      (q : Peer S C D) (first : Bool) (d : C) (a : D) (size len : ℕ)
      → q.session.point ≡ receiving first
      → q.inbound ≡ some (size, len)
      → IsArchive requests
      → IsFilter q.connection.filter
      → length q.connection.inbound_data ≡ length (payload requests q.connection.filter d)
      → Fits responses q.connection.filter (reply_of a)
      → strategy d ≡ returns a
      → let bytes = payload requests q.connection.filter d in
        complete asio requests responses strategy q (arrived success bytes)
        ≡ returns (record q {
          session = record q.session {
            point = replying;
            requests = q.session.requests ++ (d ∷ []);
            replies = q.session.replies ++ (reply_of a ∷ []);
          };
          connection =
              prepared asio responses
                (λ s. [])
                (record q.connection { inbound_data = bytes })
                (reply_of a);
          cdata = d;
          inbound = none;
        })
  unfolding complete_at bytes_arrived data_arrived
  data_comes q first d a size len at here law filter sized fits answer =
      let bytes = payload requests q.connection.filter d in
      let n = len + length bytes in
      let c = record q.connection { inbound_data = bytes } in
      let handle : Bytes → AsyncResult S C = λ x.
        handle_read_data asio requests (record q.connection { inbound_data = x }) q.cdata success
          n in
      let next : AsyncResult S C → Outcome (Peer S C D) = λ r. r.report >>= λ told.
      notify asio requests responses strategy
        (record q { connection = r.connection; cdata = r.value })
        (received told.0 told.1 r.value) in
      complete-at (receiving first) q (arrived success bytes) at
      ∙ (ap (λ i. bytes_arrived asio requests responses strategy q i success bytes) here
          ∙ (ap (λ x. next (handle x)) (overwrite_all bytes q.connection.inbound_data sized)
              ∙ (ap next (
                    handle_read_data_lem asio requests c q.cdata d n (requests.save d)
                      (filter.through (requests.save d) (law.signature d)) (law.reloads d q.cdata))
                  ∙ notify-answers (record q { connection = c; cdata = d }) first n d a at fits
                      answer)))

  -- The answer is sent: the session waits for the next request.
  pub answer_sent :
      (r : Peer S C D) (n : ℕ)
      → r.session.point ≡ replying
      → complete asio requests responses strategy r (written success n)
        ≡ returns (record r {
          session = record r.session { point = receiving false; sent = suc r.session.sent };
          inbound = none;
        })
  unfolding complete_at notify outbound
  answer_sent r n at =
      let c = r.connection in
      let s : Session C D = record r.session {
        point = receiving false;
        sent = suc r.session.sent;
      } in
      let tell : Session C D → Outcome (Peer S C D) = λ t. returns (record r {
        session = t;
        connection =
            outbound asio requests responses strategy c (drop (length r.session.replies) t.replies);
        inbound = none;
      }) in
      complete-at replying r (written success n) at
      ∙ (ap (λ o. o >>= tell)
            (handle_event-delivered strategy (start asio requests responses strategy c) r.session n
              at)
          ∙ ap
              (λ l. returns (record r {
                session = s;
                connection = outbound asio requests responses strategy c l;
                inbound = none;
              }))
              (drop-all (length r.session.replies) r.session.replies (omega arith)))
