-- ===== src/Proactor/Simulation.antt =====
-- The server down to its transfers, against the server of Server.antt.
use tcpclient_server.Prelude.{
  ℕ, ◌≡◌, refl, sym, ap, ◌∙◌, ◌⊎◌, inl, inr, List, [], ◌∷◌, Option, none, some, arith, Bool-cases,
}
use mathlib.Core.Path.{subst}
use tcpclient_server.Errors.{
  ErrorCode, is_error, Outcome, returns, >>=-eq-returns, returns-injective,
}
use tcpclient_server.Response.{Response}
use tcpclient_server.Filter.{Filter}
use tcpclient_server.Io.{Asio, Initialization}
use tcpclient_server.Connection.{Archive, Connection}
use tcpclient_server.Endpoints.{async_initialize}
use tcpclient_server.Proactor.Beginnings.{new_host-accept_next}
use tcpclient_server.Session.{SessionEvent, Session, do_initialize, handle_event}
use tcpclient_server.Server.{
  Server, ServerEvent, accepted, session_event, do_accept, new_server, find_session, put_session,
  on_accepted, on_session_event, serve, run,
}
use tcpclient_server.Proactor.{
  Peer, Completion, Host, HostEvent, client_accepted, completed, complete, find_peer, put_peer,
  accept_next, new_host, on_client, on_completed, turn, turns, host_run,
}
use tcpclient_server.Proactor.Table.{AllPeers, find_peer-AllPeers, put_peer-AllPeers}
use tcpclient_server.Proactor.Peers.{starting, complete-Advances}

-- What is left of a host without its connections.
abbrev pub views : {S C D : Type 0} → List (Peer S C D) → List (Session C D)
views [] = []
views (p ∷ ps) = p.session ∷ views ps

abbrev pub view : {S C D : Type 0} → Host S C D → Server C D
view h = record { count = h.count; pending = h.waiting.session; sessions = views h.peers }

module _ {C D : Type 0} where
  put_session_same :
      (i : ℕ) (s : Session C D) (ss : List (Session C D))
      → find_session i ss ≡ some s
      → put_session i s ss ≡ ss
  unfolding find_session put_session
  put_session_same i s [] h = cc
  put_session_same i s (x ∷ ss) h = ground (arith, put_session_same i s ss)

module _ {S C D : Type 0} where
  find_peer-views :
      (i : ℕ) (ps : List (Peer S C D)) (p : Peer S C D)
      → find_peer i ps ≡ some p
      → find_session i (views ps) ≡ some p.session
  unfolding find_peer find_session
  find_peer-views i [] p h = cc
  find_peer-views i (x ∷ ps) p h = ground (arith, find_peer-views i ps p)

  put_peer-views :
      (i : ℕ) (q : Peer S C D) (ps : List (Peer S C D))
      → views (put_peer i q ps) ≡ put_session i q.session (views ps)
  unfolding put_peer put_session
  put_peer-views i q [] = refl
  put_peer-views i q (x ∷ ps) = ground (arith, put_peer-views i q ps)

-- What the events of the host are to its sessions, in their order: each accept is one event, with
-- its code; each completion is one event of the same session, or none.
pub data Abstracts {C : Type 0} : List HostEvent → List (ServerEvent C) → Type 0 where
  nothing_left : Abstracts [] []
  accepts :
      (ec : ErrorCode) {es : List HostEvent} {evs : List (ServerEvent C)}
      → Abstracts es evs
      → Abstracts (client_accepted ec ∷ es) (accepted ec ∷ evs)
  handles :
      (i : ℕ) (c : Completion) (e : SessionEvent C) {es : List HostEvent}
      {evs : List (ServerEvent C)}
      → Abstracts es evs
      → Abstracts (completed i c ∷ es) (session_event i e ∷ evs)
  keeps :
      (i : ℕ) (c : Completion) {es : List HostEvent} {evs : List (ServerEvent C)}
      → Abstracts es evs
      → Abstracts (completed i c ∷ es) evs

-- What one event of the host does to the server of the sessions.
module _ {S C D : Type 0} (asio : Asio S) (requests : Archive C) (responses : Archive (Response D))
    (strategy : C → Outcome D) (initialize : Outcome Initialization) (f : Filter) where
  abbrev pub Serves : Server C D → ServerEvent C → Server C D → Type 0
  Serves v e w =
      serve initialize strategy (starting asio requests responses strategy f) v e ≡ returns w

  abbrev pub Follows : HostEvent → Server C D → Server C D → Type 0
  Follows (client_accepted ec) v w = Serves v (accepted ec) w
  Follows (completed i c) v w = (w ≡ v) ⊎ ((e : SessionEvent C) × Serves v (session_event i e) w)

  abbrev IsFiltered : Peer S C D → Type 0
  IsFiltered p = p.connection.filter ≡ f

  -- Every connection has the filter, and the one that waits is initialized in the one way.
  pub record IsUniform (h : Host S C D) : Type 0 where
    pub waiting_filter : h.waiting.connection.filter ≡ f
    pub initialized : async_initialize h.waiting.connection ≡ initialize
    pub filtered : AllPeers IsFiltered h.peers

  on_completed-Follows :
      (i : ℕ) (e : Completion) (h h' : Host S C D) (o : Option (Peer S C D))
      → find_peer i h.peers ≡ o
      → IsUniform h
      → on_completed asio requests responses strategy i e h o ≡ returns h'
      → IsUniform h' × Follows (completed i e) (view h) (view h')
  unfolding on_completed serve on_session_event
  on_completed-Follows i e h h' none found u k =
      subst (λ x. IsUniform x × Follows (completed i e) (view h) (view x)) (returns-injective k)
        (u, inl refl)
  on_completed-Follows i e h h' (some p) found u k =
      let (q, one, done) = >>=-eq-returns (complete asio requests responses strategy p e) _ k in
      let ((same, io), moved) = complete-Advances asio requests responses strategy p q e one in
      let at = find_peer-views i h.peers p found in
      let pf = find_peer-AllPeers IsFiltered i h.peers p u.filtered found in
      subst (λ x. IsUniform x × Follows (completed i e) (view h) (view x)) (returns-injective done)
        (
          record {
            waiting_filter = u.waiting_filter;
            initialized = u.initialized;
            filtered = put_peer-AllPeers IsFiltered i q h.peers (same ∙ pf) u.filtered;
          },
          elim moved [
            | inl stays ↦ inl (
                ap (λ ss. record (view h) { sessions = ss })
                  (put_peer-views i q h.peers
                    ∙ (ap (λ s. put_session i s (views h.peers)) stays
                        ∙ put_session_same i p.session (views h.peers) at)))
            | inr (ev, handled) ↦
                let told =
                  subst
                    (λ g.
                      handle_event strategy (starting asio requests responses strategy g) p.session
                        ev
                      ≡ returns q.session)
                    pf handled in
                inr (ev, rw (at, on_session_event, told, put_peer-views i q h.peers) refl)
          ],
        )

  module _ (make : ℕ → Outcome (Connection S)) (unset : C)
      (law : (n : ℕ) (c : Connection S)
        → make n ≡ returns c
        → (c.filter ≡ f) × (async_initialize c ≡ initialize)) where
    accept_next-IsUniform :
        (n : ℕ) (ps : List (Peer S C D)) (h : Host S C D)
        → AllPeers IsFiltered ps
        → accept_next asio requests responses strategy make unset n ps ≡ returns h
        → IsUniform h × (view h ≡ do_accept n (views ps))
    unfolding accept_next do_accept
    accept_next-IsUniform n ps h all k =
        let (c, made, done) = >>=-eq-returns (make n) _ k in
        let (same, init) = law n c made in
        subst (λ x. IsUniform x × (view x ≡ do_accept n (views ps))) (returns-injective done)
          (record { waiting_filter = same; initialized = init; filtered = all }, refl)

    on_client-Follows :
        (ec : ErrorCode) (h h' : Host S C D)
        → IsUniform h
        → on_client asio requests responses strategy make unset ec h ≡ returns h'
        → IsUniform h' × Follows (client_accepted ec) (view h) (view h')
    unfolding on_client serve on_accepted
    on_client-Follows ec h h' u k = elim (Bool-cases (is_error ec)) [
      | inl bad ↦
          let (u', same) = accept_next-IsUniform h.count h.peers h' u.filtered (rw bad at k) in
          (u', rw (bad, same) refl)
      | inr fine ↦
          let (s, begun, next) =
            >>=-eq-returns (do_initialize (async_initialize h.waiting.connection) h.waiting.session)
              _ (rw fine at k) in
          let (u', same) =
            accept_next-IsUniform h.count (record h.waiting { session = s } ∷ h.peers) h'
              (u.waiting_filter, u.filtered) next in
          let begun' =
            subst (λ o. do_initialize o h.waiting.session ≡ returns s) u.initialized begun in
          (u', rw (fine, begun', same) refl)
    ]

    turn-Follows :
        (h h' : Host S C D) (e : HostEvent)
        → IsUniform h
        → turn asio requests responses strategy make unset h e ≡ returns h'
        → IsUniform h' × Follows e (view h) (view h')
    unfolding turn
    turn-Follows h h' (client_accepted ec) u k = on_client-Follows ec h h' u k
    turn-Follows h h' (completed i e) u k =
        on_completed-Follows i e h h' (find_peer i h.peers) refl u k

    -- The server of the sessions has run on these events, and come to this one.
    abbrev pub RunsTo : Server C D → List HostEvent → Server C D → Type 0
    RunsTo v es w =
        (evs : List (ServerEvent C)) × Abstracts es evs
        × (run initialize strategy (starting asio requests responses strategy f) v evs ≡ returns w)

    Follows-RunsTo :
        (e : HostEvent) (es : List HostEvent) (v u w : Server C D)
        → Follows e v u
        → RunsTo u es w
        → RunsTo v (e ∷ es) w
    unfolding run
    Follows-RunsTo (client_accepted ec) es v u w served (evs, related, ran) =
        (accepted ec ∷ evs, accepts ec related, rw served ran)
    Follows-RunsTo (completed i c) es v u w (inl same) (evs, related, ran) =
        (evs, keeps i c related, rw (sym same) ran)
    Follows-RunsTo (completed i c) es v u w (inr (e, served)) (evs, related, ran) =
        (session_event i e ∷ evs, handles i c e related, rw served ran)

    turns-RunsTo :
        (h h' : Host S C D) (es : List HostEvent)
        → IsUniform h
        → turns asio requests responses strategy make unset h es ≡ returns h'
        → RunsTo (view h) es (view h')
    unfolding turns run
    turns-RunsTo h h' [] u k = ([], nothing_left, ap returns (ap view (returns-injective k)))
    turns-RunsTo h h' (e ∷ es) u k =
        let (g, one, rest) =
          >>=-eq-returns (turn asio requests responses strategy make unset h e) _ k in
        let (u', step) = turn-Follows h g e u one in
        Follows-RunsTo e es (view h) (view g) (view h') step (turns-RunsTo g h' es u' rest)

    -- Whatever the operating system completes, in any order: as far as its sessions can tell, a
    -- server that goes on has run the event loop of Server, from its constructor on, on one event
    -- for each accept, with its code, and on one event of the same session or none for each
    -- completion, in the order of the events of the host.
    pub host_run-refines :
        (listening : Option ErrorCode) (es : List HostEvent) (h : Host S C D)
        → host_run asio requests responses strategy make unset listening es ≡ returns h
        → (evs : List (ServerEvent C)) × Abstracts es evs
          × (run initialize strategy (starting asio requests responses strategy f) new_server evs
              ≡ returns (view h))
    unfolding host_run new_server
    host_run-refines listening es h k =
        let (g, fresh, rest) =
          >>=-eq-returns (new_host asio requests responses strategy make unset listening) _ k in
        let waits =
          new_host-accept_next asio requests responses strategy make unset listening g fresh in
        let (u, same) = accept_next-IsUniform 0 [] g tt waits in
        let (evs, related, ran) = turns-RunsTo g h es u rest in (evs, related, rw (sym same) ran)
