-- ===== src/Proactor/Numbered.antt =====
-- The numbers of the sessions of a host, and what an event leaves of the other sessions.
use tcpclient_server.Prelude.{
  ℕ, suc, ◌<◌, ◌≡◌, ◌≢◌, refl, sym, ap, ◌∙◌, inl, inr, List, [], ◌∷◌, Option, none, some, ◌==◌,
  false, arith, Bool-cases,
}
use mathlib.Core.Path.{subst}
use tcpclient_server.Errors.{
  ErrorCode, is_error, Outcome, returns, >>=-eq-returns, returns-injective,
}
use tcpclient_server.Response.{Response}
use tcpclient_server.Io.{Asio}
use tcpclient_server.Connection.{Archive, Connection}
use tcpclient_server.Endpoints.{async_initialize}
use tcpclient_server.Session.{new_session, do_initialize}
use tcpclient_server.Session.Numbers.{do_initialize-session_id, handle_event-session_id}
use tcpclient_server.Proactor.{
  Peer, Completion, Host, HostEvent, client_accepted, completed, complete, find_peer, accept_next,
  on_client, on_completed, turn, turns,
}
use tcpclient_server.Proactor.Table.{
  AllPeers, find_peer-AllPeers, put_peer-AllPeers, AllPeers-map, find_peer-id, put_peer-same,
  put_peer-other,
}
use tcpclient_server.Proactor.Peers.{starting, complete-Advances}

-- The session that waits has the last number, and the others have smaller ones.
abbrev pub IsNumbered : {S C D : Type 0} → Host S C D → Type 0
IsNumbered h =
    (h.count ≡ suc h.waiting.session.session_id)
    × AllPeers (λ p. p.session.session_id < h.waiting.session.session_id) h.peers

module _ {S C D : Type 0} (asio : Asio S) (requests : Archive C) (responses : Archive (Response D))
    (strategy : C → Outcome D) where
  complete-id :
      (p q : Peer S C D) (e : Completion)
      → complete asio requests responses strategy p e ≡ returns q
      → q.session.session_id ≡ p.session.session_id
  complete-id p q e h = elim (complete-Advances asio requests responses strategy p q e h).1 [
    | inl stays ↦ ap (λ s. s.session_id) stays
    | inr (ev, handled) ↦
        handle_event-session_id strategy
          (starting asio requests responses strategy p.connection.filter) p.session q.session ev
          handled
  ]

  -- The event of a session takes it on.
  pub on_completed-same :
      (i : ℕ) (e : Completion) (h g : Host S C D) (p : Peer S C D)
      → find_peer i h.peers ≡ some p
      → on_completed asio requests responses strategy i e h (some p) ≡ returns g
      → (q : Peer S C D) × (complete asio requests responses strategy p e ≡ returns q)
        × (find_peer i g.peers ≡ some q)
  unfolding on_completed
  on_completed-same i e h g p found k =
      let (q, one, done) = >>=-eq-returns (complete asio requests responses strategy p e) _ k in
      (
        q,
        one,
        subst (λ x. find_peer i x.peers ≡ some q) (returns-injective done)
            (put_peer-same i q h.peers p (complete-id p q e one ∙ find_peer-id i h.peers p found)
              found),
      )

  -- It leaves the others as they were.
  pub on_completed-other :
      (j i : ℕ) (e : Completion) (h g : Host S C D) (o : Option (Peer S C D))
      → i ≢ j
      → find_peer j h.peers ≡ o
      → on_completed asio requests responses strategy j e h o ≡ returns g
      → find_peer i g.peers ≡ find_peer i h.peers
  unfolding on_completed
  on_completed-other j i e h g none n there k =
      subst (λ x. find_peer i x.peers ≡ find_peer i h.peers) (returns-injective k) refl
  on_completed-other j i e h g (some x) n there k =
      let (q, one, done) = >>=-eq-returns (complete asio requests responses strategy x e) _ k in
      subst (λ y. find_peer i y.peers ≡ find_peer i h.peers) (returns-injective done)
        (put_peer-other i j q h.peers n (complete-id x q e one ∙ find_peer-id j h.peers x there))

  pub on_completed-IsNumbered :
      (j : ℕ) (e : Completion) (h g : Host S C D) (o : Option (Peer S C D))
      → find_peer j h.peers ≡ o
      → IsNumbered h
      → on_completed asio requests responses strategy j e h o ≡ returns g
      → IsNumbered g
  unfolding on_completed
  on_completed-IsNumbered j e h g none there v k = subst IsNumbered (returns-injective k) v
  on_completed-IsNumbered j e h g (some x) there v k =
      let P = λ (p : Peer S C D). p.session.session_id < h.waiting.session.session_id in
      let (q, one, done) = >>=-eq-returns (complete asio requests responses strategy x e) _ k in
      let below : x.session.session_id < h.waiting.session.session_id =
        find_peer-AllPeers P j h.peers x v.1 there in
      subst IsNumbered (returns-injective done) (
        v.0,
        put_peer-AllPeers P j q h.peers
            (subst (λ n. n < h.waiting.session.session_id) (sym (complete-id x q e one)) below) v.1,
      )

  module _ (make : ℕ → Outcome (Connection S)) (unset : C) where
    -- A new number for the next session.
    pub accept_next-IsNumbered :
        (n : ℕ) (ps : List (Peer S C D)) (g : Host S C D)
        → AllPeers (λ p. p.session.session_id < n) ps
        → accept_next asio requests responses strategy make unset n ps ≡ returns g
        → IsNumbered g × (g.peers ≡ ps)
    unfolding accept_next new_session
    accept_next-IsNumbered n ps g below k =
        let (c, made, done) = >>=-eq-returns (make n) _ k in
        subst (λ x. IsNumbered x × (x.peers ≡ ps)) (returns-injective done) ((refl, below), refl)

    -- The handler of an accepted client leaves the sessions as they were.
    pub on_client-own :
        (ec : ErrorCode) (h g : Host S C D)
        → IsNumbered h
        → on_client asio requests responses strategy make unset ec h ≡ returns g
        → IsNumbered g
          × ((i : ℕ) (p : Peer S C D) → find_peer i h.peers ≡ some p → find_peer i g.peers ≡ some p)
    unfolding on_client find_peer
    on_client-own ec h g v k =
        let w = h.waiting.session.session_id in
        let below : AllPeers (λ p. p.session.session_id < h.count) h.peers =
          AllPeers-map (λ p l. omega (arith, l, v.0)) h.peers v.1 in
        elim (Bool-cases (is_error ec)) [
          | inl bad ↦
              let (v', same) = accept_next-IsNumbered h.count h.peers g below (rw bad at k) in
              (v', λ i p found. rw same found)
          | inr fine ↦
              let (s, begun, next) =
                >>=-eq-returns
                  (do_initialize (async_initialize h.waiting.connection) h.waiting.session) _
                  (rw fine at k) in
              let kept : s.session_id ≡ w =
                do_initialize-session_id (async_initialize h.waiting.connection) h.waiting.session s
                  begun in
              let (v', same) =
                accept_next-IsNumbered h.count (record h.waiting { session = s } ∷ h.peers) g
                  (omega (arith, kept, v.0), below) next in
              (
                v',
                λ i p found.
                    let low : p.session.session_id < w =
                      find_peer-AllPeers (λ x. x.session.session_id < w) i h.peers p v.1 found in
                    let it : p.session.session_id ≡ i = find_peer-id i h.peers p found in
                    let no : (s.session_id == i) ≡ false = ground (arith, kept, low, it) in
                    rw (same, no) found,
              )
        ]

    pub turns-IsNumbered :
        (es : List HostEvent) (h g : Host S C D)
        → IsNumbered h
        → turns asio requests responses strategy make unset h es ≡ returns g
        → IsNumbered g
    unfolding turns turn
    turns-IsNumbered [] h g v k = subst IsNumbered (returns-injective k) v
    turns-IsNumbered (client_accepted ec ∷ es) h g v k =
        let (u, one, rest) =
          >>=-eq-returns (on_client asio requests responses strategy make unset ec h) _ k in
        turns-IsNumbered es u g (on_client-own ec h u v one).0 rest
    turns-IsNumbered (completed j e ∷ es) h g v k =
        let o = find_peer j h.peers in
        let (u, one, rest) =
          >>=-eq-returns (on_completed asio requests responses strategy j e h o) _ k in
        turns-IsNumbered es u g (on_completed-IsNumbered j e h u o refl v one) rest
