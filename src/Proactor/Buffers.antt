-- ===== src/Proactor/Buffers.antt =====
-- What the buffers of a connection hold, while an operation of its session is pending.
use tcpclient_server.Prelude.{
  ℕ, ◌+◌, ◌≡◌, refl, sym, ap, ◌∙◌, inl, inr, List, [], ◌∷◌, ◌++◌, Bytes, Option, none, some, length,
  drop, drop-all, drop-append, arith, ◌≢◌,
}
use mathlib.Core.Path.{subst}
use tcpclient_server.Errors.{
  ErrorCode, Outcome, returns, throws, undefined, >>=-eq-returns, returns-injective,
}
use tcpclient_server.Response.{Response}
use tcpclient_server.Io.{Asio}
use tcpclient_server.Connection.{
  Archive, Connection, writing, HeaderStep, reported, reading_data, overwrite, async_write,
  handle_read_header, handle_read_data,
}
use tcpclient_server.Connection.Kept.{async_write-buffers, async_write-SameStrategies}
use tcpclient_server.Connection.Raised.{IsSized, handle_read_header-IsSized}
use tcpclient_server.Session.{
  SessionPoint, created, initializing, replying, receiving, SessionEvent, initialized, received,
  delivered, Session, handle_event,
}
use tcpclient_server.Session.Pending.{IsElsewhere, IsSettled-IsElsewhere, handle_event-Moves}
use tcpclient_server.Proactor.{
  Peer, Completion, shaken, arrived, written, start, outbound, notify, after_header, header_arrived,
  data_arrived, bytes_arrived, complete_at, complete,
}
use tcpclient_server.Proactor.Peers.{starting, start-starting}

module _ {S C D : Type 0} (asio : Asio S) (requests : Archive C) (responses : Archive (Response D))
    (strategy : C → Outcome D) where
  -- The outgoing buffers hold the message of the last reply.
  abbrev pub Sends : Peer S C D → Type 0
  Sends p =
      (rs : List (Response D)) × (r : Response D) × (p.session.replies ≡ rs ++ (r ∷ []))
      × (start asio requests responses strategy p.connection r
          ≡ writing (p.connection.outbound_header ∷ p.connection.outbound_data ∷ []))

  -- A session that has started: while it writes, it sends its last reply; and the data of a message
  -- is read into a buffer of the size that its header has.
  pub record IsPeer (p : Peer S C D) : Type 0 where
    pub started : p.session.point ≢ created
    pub sends : p.session.point ≡ replying → Sends p
    pub reads :
        (size len : ℕ) → p.inbound ≡ some (size, len) → IsSized asio requests p.connection size

  -- The write of a reply has begun.
  written-Sends :
      (c : Connection S) (r : Response D) (bs : List Bytes)
      → start asio requests responses strategy c r ≡ writing bs
      → let c' = (async_write asio responses c r).0 in
        start asio requests responses strategy c' r
        ≡ writing (c'.outbound_header ∷ c'.outbound_data ∷ [])
  written-Sends c r bs begun =
      let c' = (async_write asio responses c r).0 in
      ap (λ w. w r) (start-starting asio requests responses strategy c')
      ∙ (ap (λ f. starting asio requests responses strategy f r)
            (async_write-SameStrategies asio responses c r).0
          ∙ (ap (λ w. w r) (sym (start-starting asio requests responses strategy c))
              ∙ (begun ∙ ap writing (async_write-buffers asio responses c r bs begun))))

  -- The session with the reply that is new.
  abbrev told : Peer S C D → Session C D → Peer S C D
  told p s = record p {
    session = s;
    connection =
        outbound asio requests responses strategy p.connection
          (drop (length p.session.replies) s.replies);
    inbound = none;
  }

  stays-IsPeer :
      (p : Peer S C D) (s : Session C D)
      → p.session.point ≢ created
      → (p.session.point ≡ replying → Sends p)
      → s ≡ p.session
      → IsPeer (told p s)
  unfolding outbound
  stays-IsPeer p s began sends same =
      let none_new : drop (length p.session.replies) s.replies ≡ [] =
        ap (λ x. drop (length p.session.replies) x.replies) same
        ∙ drop-all (length p.session.replies) p.session.replies (omega arith) in
      record {
        started = λ at. began (sym (ap (λ x. x.point) same) ∙ at);
        sends = λ at.
            let (rs, r, e, w) = sends (sym (ap (λ x. x.point) same) ∙ at) in
            (
              rs,
              r,
              ap (λ x. x.replies) same ∙ e,
              subst
                  (λ l.
                    let c = outbound asio requests responses strategy p.connection l in
                    start asio requests responses strategy c r
                    ≡ writing (c.outbound_header ∷ c.outbound_data ∷ []))
                  (sym none_new) w,
            );
        reads = λ size len e. cc;
      }

  replies-IsPeer :
      (p : Peer S C D) (s : Session C D) (r : Response D) (bs : List Bytes)
      → s.replies ≡ p.session.replies ++ (r ∷ [])
      → start asio requests responses strategy p.connection r ≡ writing bs
      → s.point ≡ replying
      → IsPeer (told p s)
  unfolding outbound
  replies-IsPeer p s r bs more begun at =
      let one_new : drop (length p.session.replies) s.replies ≡ r ∷ [] =
        ap (drop (length p.session.replies)) more
        ∙ drop-append p.session.replies (r ∷ []) (length p.session.replies) refl in
      record {
        started = λ k. let no : replying ≡ created = sym at ∙ k in cc;
        sends = λ k. (
          p.session.replies,
          r,
          more,
          subst
              (λ l.
                let c = outbound asio requests responses strategy p.connection l in
                start asio requests responses strategy c r
                ≡ writing (c.outbound_header ∷ c.outbound_data ∷ []))
              (sym one_new) (written-Sends p.connection r bs begun),
        );
        reads = λ size len e. cc;
      }

  pub elsewhere-IsPeer :
      (p : Peer S C D) → IsElsewhere p.session.point → p.inbound ≡ none → IsPeer p
  elsewhere-IsPeer p other quiet = record {
    started = λ k. subst IsElsewhere k other;
    sends = λ k. absurd (subst IsElsewhere k other);
    reads = λ size len e. let no : none ≡ some (size, len) = sym quiet ∙ e in cc;
  }

  notify-IsPeer :
      (p q : Peer S C D) (e : SessionEvent C)
      → p.session.point ≢ created
      → (p.session.point ≡ replying → Sends p)
      → notify asio requests responses strategy p e ≡ returns q
      → IsPeer q
  unfolding notify
  notify-IsPeer p q e began sends h =
      let (s, handled, done) =
        >>=-eq-returns
          (handle_event strategy (start asio requests responses strategy p.connection) p.session e)
          _ h in
      subst IsPeer (returns-injective done)
        (elim (handle_event-Moves strategy (start asio requests responses strategy p.connection)
          p.session s e handled) [
            | inl same ↦ stays-IsPeer p s began sends same
            | inr (inl (r, bs, more, begun, at)) ↦ replies-IsPeer p s r bs more begun at
            | inr (inr other) ↦
                elsewhere-IsPeer (told p s) (IsSettled-IsElsewhere s.point other) refl
          ])

  after_header-IsPeer :
      (p q : Peer S C D) (o : Outcome HeaderStep)
      → p.session.point ≢ created
      → (p.session.point ≡ replying → ⊥)
      → ((size n : ℕ) → o ≡ returns (reading_data size n) → IsSized asio requests p.connection size)
      → after_header asio requests responses strategy p o ≡ returns q
      → IsPeer q
  unfolding after_header
  after_header-IsPeer p q (throws x) began idle sized h = cc
  after_header-IsPeer p q undefined began idle sized h = cc
  after_header-IsPeer p q (returns (reported ec len)) began idle sized h =
      notify-IsPeer p q (received ec len p.cdata) began (λ k. absurd (idle k)) h
  after_header-IsPeer p q (returns (reading_data size len)) began idle sized h =
      subst IsPeer (returns-injective h) (record {
        started = began;
        sends = λ k. absurd (idle k);
        reads = λ size' len' e.
            let it : size ≡ size' = cc in
            subst (IsSized asio requests p.connection) it (sized size len refl);
      })

  bytes_arrived-IsPeer :
      (p q : Peer S C D) (inbound : Option (ℕ × ℕ)) (ec : ErrorCode) (bytes : Bytes)
      → p.session.point ≢ created
      → (p.session.point ≡ replying → ⊥)
      → bytes_arrived asio requests responses strategy p inbound ec bytes ≡ returns q
      → IsPeer q
  unfolding bytes_arrived header_arrived data_arrived
  bytes_arrived-IsPeer p q none ec bytes began idle h =
      let c = record p.connection {
        inbound_header = overwrite bytes p.connection.inbound_header;
      } in
      let r = handle_read_header asio requests c ec (length bytes) in
      after_header-IsPeer (record p { connection = r.0 }) q r.1 began idle
        (λ size n e. handle_read_header-IsSized asio requests c ec (length bytes) size n e) h
  bytes_arrived-IsPeer p q (some (size, len)) ec bytes began idle h =
      let c = record p.connection { inbound_data = overwrite bytes p.connection.inbound_data } in
      let r = handle_read_data asio requests c p.cdata ec (len + length bytes) in
      let ((ec', n), told', notified) = >>=-eq-returns r.report _ h in
      notify-IsPeer (record p { connection = r.connection; cdata = r.value }) q
        (received ec' n r.value) began (λ k. absurd (idle k)) notified

  complete_at-IsPeer :
      (point : SessionPoint) (p q : Peer S C D) (e : Completion)
      → p.session.point ≡ point
      → IsPeer p
      → complete_at asio requests responses strategy point p e ≡ returns q
      → IsPeer q
  unfolding complete_at
  complete_at-IsPeer initializing p q (shaken ec) at v h =
      notify-IsPeer p q (initialized ec) v.started v.sends h
  complete_at-IsPeer (receiving first) p q (arrived ec bytes) at v h =
      bytes_arrived-IsPeer p q p.inbound ec bytes v.started
        (λ k. let no : receiving first ≡ replying = sym at ∙ k in cc) h
  complete_at-IsPeer replying p q (written ec n) at v h =
      notify-IsPeer p q (delivered ec n) v.started v.sends h
  complete_at-IsPeer _ p q _ at v h = subst IsPeer (returns-injective h) v

  pub complete-IsPeer :
      (p q : Peer S C D) (e : Completion)
      → IsPeer p
      → complete asio requests responses strategy p e ≡ returns q
      → IsPeer q
  unfolding complete
  complete-IsPeer p q e v h = complete_at-IsPeer p.session.point p q e refl v h
