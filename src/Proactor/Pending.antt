-- ===== src/Proactor/Pending.antt =====
-- The one operation that each session of a running server has pending.
use tcpclient_server.Prelude.{
  ℕ, ◌≡◌, refl, ap, ◌∙◌, inl, inr, List, [], ◌∷◌, ◌++◌, Bytes, Option, none, some, length,
  Bool-cases,
}
use mathlib.Core.Path.{subst}
use tcpclient_server.Errors.{
  ErrorCode, is_error, Outcome, returns, >>=-eq-returns, returns-injective,
}
use tcpclient_server.Header.{header_length, parse_header}
use tcpclient_server.Response.{Response}
use tcpclient_server.Io.{Asio, shaking, server, async_read_impl, async_write_impl}
use tcpclient_server.Connection.{Archive, Connection, writing}
use tcpclient_server.Endpoints.{async_initialize}
use tcpclient_server.Session.{
  SessionPoint, created, initializing, replying, receiving, closed, do_initialize,
}
use tcpclient_server.Session.Pending.{do_initialize-IsElsewhere}
use tcpclient_server.Proactor.{
  Peer, Completion, Host, HostEvent, client_accepted, completed, start, complete, find_peer,
  operation_at, operation, accept_next, new_host, on_client, on_completed, turn, turns, host_run,
}
use tcpclient_server.Proactor.Table.{AllPeers, find_peer-AllPeers, put_peer-AllPeers}
use tcpclient_server.Proactor.Shaking.{Shakes, do_initialize-Shakes, complete-Shakes}
use tcpclient_server.Proactor.Buffers.{IsPeer, complete-IsPeer, elsewhere-IsPeer}
use tcpclient_server.Proactor.Beginnings.{new_host-accept_next}
use tcpclient_server.Errors.{ErrorCode}
use tcpclient_server.Prelude.{Option}

module _ {S C D : Type 0} (asio : Asio S) (requests : Archive C) (responses : Archive (Response D))
    (strategy : C → Outcome D) where
  -- Which operation is pending, at each program point.
  abbrev pub Pends : SessionPoint → Option (ℕ × ℕ) → Peer S C D → Type 0
  Pends created inbound p = ⊥
  Pends initializing inbound p = operation p ≡ some (shaking server)
  Pends (receiving first) none p =
      operation p ≡ some (async_read_impl p.connection.io header_length)
  Pends (receiving first) (some (size, len)) p =
      (operation p ≡ some (async_read_impl p.connection.io size))
      × (parse_header p.connection.inbound_header ≡ some size)
      × (length p.connection.inbound_data ≡ size)
  Pends replying inbound p =
      (rs : List (Response D)) × (r : Response D) × (buffers : List Bytes) × (p.session.replies
        ≡ rs ++ (r ∷ []))
      × (start asio requests responses strategy p.connection r ≡ writing buffers)
      × (operation p ≡ some (async_write_impl p.connection.io buffers))
  Pends closed inbound p = operation p ≡ none

  operation-at :
      (point : SessionPoint) (inbound : Option (ℕ × ℕ)) (p : Peer S C D)
      → p.session.point ≡ point
      → p.inbound ≡ inbound
      → operation p ≡ operation_at point inbound p.connection
  unfolding operation
  operation-at point inbound p at here =
      ap (λ t. operation_at t p.inbound p.connection) at
      ∙ ap (λ i. operation_at point i p.connection) here

  IsPeer-Pends :
      (point : SessionPoint) (inbound : Option (ℕ × ℕ)) (p : Peer S C D)
      → p.session.point ≡ point
      → p.inbound ≡ inbound
      → IsPeer asio requests responses strategy p
      → Shakes p
      → Pends point inbound p
  unfolding operation_at
  IsPeer-Pends created inbound p at here v shakes = v.started at
  IsPeer-Pends initializing inbound p at here v shakes =
      operation-at initializing inbound p at here ∙ rw (shakes at) refl
  IsPeer-Pends (receiving first) none p at here v shakes =
      operation-at (receiving first) none p at here
  IsPeer-Pends (receiving first) (some (size, len)) p at here v shakes =
      let (parsed, sized) = v.reads size len here in
      (operation-at (receiving first) (some (size, len)) p at here, parsed, sized)
  IsPeer-Pends replying inbound p at here v shakes =
      let (rs, r, last, begun) = v.sends at in
      (rs, r, _, last, begun, operation-at replying inbound p at here)
  IsPeer-Pends closed inbound p at here v shakes = operation-at closed inbound p at here

  -- What holds of a session that has started.
  abbrev Holds : Peer S C D → Type 0
  Holds p = IsPeer asio requests responses strategy p × Shakes p

  -- No session of a host has still to start, but for the one that waits.
  abbrev IsHost : Host S C D → Type 0
  IsHost h = (h.waiting.inbound ≡ none) × AllPeers Holds h.peers

  on_completed-IsHost :
      (i : ℕ) (e : Completion) (h h' : Host S C D) (o : Option (Peer S C D))
      → find_peer i h.peers ≡ o
      → IsHost h
      → on_completed asio requests responses strategy i e h o ≡ returns h'
      → IsHost h'
  unfolding on_completed
  on_completed-IsHost i e h h' none found v k = subst IsHost (returns-injective k) v
  on_completed-IsHost i e h h' (some p) found v k =
      let held = find_peer-AllPeers Holds i h.peers p v.1 found in
      let (q, one, done) = >>=-eq-returns (complete asio requests responses strategy p e) _ k in
      subst IsHost (returns-injective done) (
        v.0,
        put_peer-AllPeers Holds i q h.peers
            (
              complete-IsPeer asio requests responses strategy p q e held.0 one,
              complete-Shakes asio requests responses strategy p q e held.1 one,
            )
            v.1,
      )

  module _ (make : ℕ → Outcome (Connection S)) (unset : C) where
    accept_next-IsHost :
        (n : ℕ) (ps : List (Peer S C D)) (h : Host S C D)
        → AllPeers Holds ps
        → accept_next asio requests responses strategy make unset n ps ≡ returns h
        → IsHost h
    unfolding accept_next
    accept_next-IsHost n ps h all k =
        let (c, made, done) = >>=-eq-returns (make n) _ k in
        subst IsHost (returns-injective done) (refl, all)

    on_client-IsHost :
        (ec : ErrorCode) (h h' : Host S C D)
        → IsHost h
        → on_client asio requests responses strategy make unset ec h ≡ returns h'
        → IsHost h'
    unfolding on_client
    on_client-IsHost ec h h' v k = elim (Bool-cases (is_error ec)) [
      | inl bad ↦ accept_next-IsHost h.count h.peers h' v.1 (rw bad at k)
      | inr fine ↦
          let (s, begun, next) =
            >>=-eq-returns (do_initialize (async_initialize h.waiting.connection) h.waiting.session)
              _ (rw fine at k) in
          accept_next-IsHost h.count (record h.waiting { session = s } ∷ h.peers) h'
            (
              (
                elsewhere-IsPeer asio requests responses strategy (record h.waiting { session = s })
                    (do_initialize-IsElsewhere (async_initialize h.waiting.connection)
                      h.waiting.session s begun)
                    v.0,
                do_initialize-Shakes h.waiting s begun,
              ),
              v.1,
            )
            next
    ]

    turns-IsHost :
        (h h' : Host S C D) (es : List HostEvent)
        → IsHost h
        → turns asio requests responses strategy make unset h es ≡ returns h'
        → IsHost h'
    unfolding turns turn
    turns-IsHost h h' [] v k = subst IsHost (returns-injective k) v
    turns-IsHost h h' (client_accepted ec ∷ es) v k =
        let (g, one, rest) =
          >>=-eq-returns (on_client asio requests responses strategy make unset ec h) _ k in
        turns-IsHost g h' es (on_client-IsHost ec h g v one) rest
    turns-IsHost h h' (completed i e ∷ es) v k =
        let o = find_peer i h.peers in
        let (g, one, rest) =
          >>=-eq-returns (on_completed asio requests responses strategy i e h o) _ k in
        turns-IsHost g h' es (on_completed-IsHost i e h g o refl v one) rest

    -- Whatever the operating system has completed, in any order: each session of the running server
    -- has one operation pending, or none if it is closed. Behind its handshake, it reads a header,
    -- or data of the size that the header has into a buffer of that size; or it sends, and then
    -- exactly the message that `async_write` makes of its last reply.
    pub host_run-Pends :
        (listening : Option ErrorCode) (es : List HostEvent) (h : Host S C D) (i : ℕ)
        (p : Peer S C D)
        → host_run asio requests responses strategy make unset listening es ≡ returns h
        → find_peer i h.peers ≡ some p
        → Pends p.session.point p.inbound p
    unfolding host_run
    host_run-Pends listening es h i p k found =
        let (g, fresh, rest) =
          >>=-eq-returns (new_host asio requests responses strategy make unset listening) _ k in
        let waits =
          new_host-accept_next asio requests responses strategy make unset listening g fresh in
        let v = turns-IsHost g h es (accept_next-IsHost 0 [] g tt waits) rest in
        let held = find_peer-AllPeers Holds i h.peers p v.1 found in
        IsPeer-Pends p.session.point p.inbound p refl refl held.0 held.1
