-- ===== src/Proactor/Peers.antt =====
-- A session over its own connection, against the session of Session.antt: an operation that
-- completes is an event of that session, or it is the header of a message and none yet.
use tcpclient_server.Prelude.{
  ℕ, ◌+◌, ◌≡◌, refl, sym, ◌∙◌, ◌⊎◌, inl, inr, List, [], ◌∷◌, Bytes, Option, none, some, length,
  drop,
}
use mathlib.Core.Path.{subst, fun_ext}
use tcpclient_server.Errors.{
  ErrorCode, Outcome, returns, throws, undefined, >>=-eq-returns, returns-injective,
}
use tcpclient_server.Response.{Response}
use tcpclient_server.Filter.{Filter}
use tcpclient_server.Io.{Asio}
use tcpclient_server.Connection.{
  Archive, Connection, WriteStart, HeaderStep, reported, reading_data, overwrite,
  handle_read_header, handle_read_data,
}
use tcpclient_server.Connection.Kept.{
  SameStrategies, start_with, async_write-start_with, async_write-SameStrategies,
  handle_read_header-SameStrategies, handle_read_data-SameStrategies,
}
use tcpclient_server.Session.{
  SessionPoint, initializing, replying, receiving, SessionEvent, initialized, received, delivered,
  handle_event,
}
use tcpclient_server.Proactor.{
  Peer, Completion, shaken, arrived, written, start, outbound, notify, after_header, header_arrived,
  data_arrived, bytes_arrived, complete_at, complete,
}

module _ {S C D : Type 0} (asio : Asio S) (requests : Archive C) (responses : Archive (Response D))
    (strategy : C → Outcome D) where
  -- How the writes of a session start, whose connection has the filter `f`.
  abbrev pub starting : Filter → Response D → WriteStart
  starting f = start_with asio responses f

  pub start-starting :
      (c : Connection S) → start asio requests responses strategy c ≡ starting c.filter
  start-starting c = fun_ext (λ r. async_write-start_with asio responses c r)

  outbound-SameStrategies :
      (c : Connection S) (rs : List (Response D))
      → SameStrategies asio responses c (outbound asio requests responses strategy c rs)
  unfolding outbound
  outbound-SameStrategies c [] = (refl, refl)
  outbound-SameStrategies c (r ∷ rs) = async_write-SameStrategies asio responses c r

  -- The connection keeps its strategies; and the session stays as it is, or handles an event.
  abbrev pub Advances : Peer S C D → Peer S C D → Type 0
  Advances p q =
      SameStrategies asio responses p.connection q.connection
      × ((q.session ≡ p.session)
          ⊎ ((e : SessionEvent C) × (handle_event strategy (starting p.connection.filter) p.session
                  e
                ≡ returns q.session)))

  notify-Advances :
      (p q : Peer S C D) (e : SessionEvent C)
      → notify asio requests responses strategy p e ≡ returns q
      → Advances p q
  unfolding notify
  notify-Advances p q e h =
      let (s, handled, done) =
        >>=-eq-returns
          (handle_event strategy (start asio requests responses strategy p.connection) p.session e)
          _ h in
      subst (Advances p) (returns-injective done) (
        outbound-SameStrategies p.connection (drop (length p.session.replies) s.replies),
        inr (
          e,
          subst (λ w. handle_event strategy w p.session e ≡ returns s) (start-starting p.connection)
              handled,
        ),
      )

  -- From a peer whose connection and `cdata_` alone have changed.
  Advances-from :
      (p p' q : Peer S C D)
      → SameStrategies asio responses p.connection p'.connection
      → p'.session ≡ p.session
      → Advances p' q
      → Advances p q
  Advances-from p p' q (same, io) e ((same', io'), inl stays) =
      ((same' ∙ same, io' ∙ io), inl (stays ∙ e))
  Advances-from p p' q (same, io) e ((same', io'), inr (ev, h)) =
      ((same' ∙ same, io' ∙ io), inr (ev, rw (sym e, sym same) h))

  after_header-Advances :
      (p q : Peer S C D) (o : Outcome HeaderStep)
      → after_header asio requests responses strategy p o ≡ returns q
      → Advances p q
  unfolding after_header
  after_header-Advances p q (throws x) h = cc
  after_header-Advances p q undefined h = cc
  after_header-Advances p q (returns (reported ec len)) h =
      notify-Advances p q (received ec len p.cdata) h
  after_header-Advances p q (returns (reading_data size len)) h =
      subst (Advances p) (returns-injective h) ((refl, refl), inl refl)

  bytes_arrived-Advances :
      (p q : Peer S C D) (inbound : Option (ℕ × ℕ)) (ec : ErrorCode) (bytes : Bytes)
      → bytes_arrived asio requests responses strategy p inbound ec bytes ≡ returns q
      → Advances p q
  unfolding bytes_arrived header_arrived data_arrived
  bytes_arrived-Advances p q none ec bytes h =
      let c = record p.connection {
        inbound_header = overwrite bytes p.connection.inbound_header;
      } in
      let r = handle_read_header asio requests c ec (length bytes) in
      Advances-from p (record p { connection = r.0 }) q
        (handle_read_header-SameStrategies asio requests c ec (length bytes)) refl
        (after_header-Advances (record p { connection = r.0 }) q r.1 h)
  bytes_arrived-Advances p q (some (size, len)) ec bytes h =
      let c = record p.connection { inbound_data = overwrite bytes p.connection.inbound_data } in
      let r = handle_read_data asio requests c p.cdata ec (len + length bytes) in
      let ((ec', n), told, notified) = >>=-eq-returns r.report _ h in
      let p' = record p { connection = r.connection; cdata = r.value } in
      Advances-from p p' q
        (handle_read_data-SameStrategies asio requests c p.cdata ec (len + length bytes)) refl
        (notify-Advances p' q (received ec' n r.value) notified)

  complete_at-Advances :
      (point : SessionPoint) (p q : Peer S C D) (e : Completion)
      → complete_at asio requests responses strategy point p e ≡ returns q
      → Advances p q
  unfolding complete_at
  complete_at-Advances initializing p q (shaken ec) h = notify-Advances p q (initialized ec) h
  complete_at-Advances (receiving first) p q (arrived ec bytes) h =
      bytes_arrived-Advances p q p.inbound ec bytes h
  complete_at-Advances replying p q (written ec n) h = notify-Advances p q (delivered ec n) h
  complete_at-Advances _ p q _ h = subst (Advances p) (returns-injective h) ((refl, refl), inl refl)

  -- An operation that completes is one event of the session or none.
  pub complete-Advances :
      (p q : Peer S C D) (e : Completion)
      → complete asio requests responses strategy p e ≡ returns q
      → Advances p q
  unfolding complete
  complete-Advances p q e h = complete_at-Advances p.session.point p q e h
