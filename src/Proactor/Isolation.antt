-- ===== src/Proactor/Isolation.antt =====
-- What one session goes through, whatever the others do between its completions.
use tcpclient_server.Prelude.{Option}
use tcpclient_server.Errors.{ErrorCode}
use tcpclient_server.Proactor.Beginnings.{new_host-accept_next}
use tcpclient_server.Prelude.{
  ℕ, ◌≡◌, ◌≢◌, refl, ap, ◌∙◌, inl, inr, List, [], ◌∷◌, some, ◌==◌, if◌then◌else◌, arith, Bool-cases,
}
use mathlib.Core.Path.{subst}
use tcpclient_server.Errors.{Outcome, returns, ◌>>=◌, >>=-eq-returns, returns-injective}
use tcpclient_server.Response.{Response}
use tcpclient_server.Io.{Asio}
use tcpclient_server.Connection.{Archive, Connection}
use tcpclient_server.Proactor.{
  Peer, Completion, Host, HostEvent, client_accepted, completed, complete, find_peer, new_host,
  on_client, on_completed, turn, turns, host_run,
}
use tcpclient_server.Proactor.Numbered.{
  IsNumbered, on_completed-same, on_completed-other, on_completed-IsNumbered,
  accept_next-IsNumbered, on_client-own, turns-IsNumbered,
}

-- The completions of the session with a number.
unfoldable pub own : ℕ → List HostEvent → List Completion
own i [] = []
own i (client_accepted ec ∷ es) = own i es
own i (completed j e ∷ es) = let rest = own i es in if j == i then e ∷ rest else rest

module _ {S C D : Type 0} (asio : Asio S) (requests : Archive C) (responses : Archive (Response D))
    (strategy : C → Outcome D) where
  -- The completions of one session, one after the other.
  unfoldable pub completes : Peer S C D → List Completion → Outcome (Peer S C D)
  completes p [] = returns p
  completes p (e ∷ es) = do q ← complete asio requests responses strategy p e; completes q es

  pub completes-next :
      (p q : Peer S C D) (e : Completion) (es : List Completion)
      → complete asio requests responses strategy p e ≡ returns q
      → completes p (e ∷ es) ≡ completes q es
  unfolding completes
  completes-next p q e es h = ap (λ o. o >>= λ x. completes x es) h

  module _ (make : ℕ → Outcome (Connection S)) (unset : C) where
    -- From an event on: a session goes through its own completions, one after the other.
    turns-own :
        (es : List HostEvent) (h g : Host S C D) (i : ℕ) (p : Peer S C D)
        → IsNumbered h
        → find_peer i h.peers ≡ some p
        → turns asio requests responses strategy make unset h es ≡ returns g
        → (q : Peer S C D) × (find_peer i g.peers ≡ some q) × (completes p (own i es) ≡ returns q)
    unfolding turns turn completes own
    turns-own [] h g i p v found k =
        (p, subst (λ x. find_peer i x.peers ≡ some p) (returns-injective k) found, refl)
    turns-own (client_accepted ec ∷ es) h g i p v found k =
        let (u, one, rest) =
          >>=-eq-returns (on_client asio requests responses strategy make unset ec h) _ k in
        let (v', kept) = on_client-own asio requests responses strategy make unset ec h u v one in
        turns-own es u g i p v' (kept i p found) rest
    turns-own (completed j e ∷ es) h g i p v found k =
        let o = find_peer j h.peers in
        let (u, one, rest) =
          >>=-eq-returns (on_completed asio requests responses strategy j e h o) _ k in
        let v' = on_completed-IsNumbered asio requests responses strategy j e h u o refl v one in
        elim (Bool-cases (j == i)) [
          | inl here ↦
              let it : j ≡ i = ground (arith, here) in
              let one' : on_completed asio requests responses strategy i e h (some p) ≡ returns u =
                subst (λ m. on_completed asio requests responses strategy i e h m ≡ returns u) found
                  (subst
                    (λ n.
                      on_completed asio requests responses strategy n e h (find_peer n h.peers)
                      ≡ returns u)
                    it one) in
              let (q, done, there) =
                on_completed-same asio requests responses strategy i e h u p found one' in
              let (r, last, whole) = turns-own es u g i q v' there rest in
              (r, last, rw here (completes-next p q e (own i es) done ∙ whole))
          | inr there ↦
              let apart : i ≢ j = λ it. ground (arith, there, it) in
              let (r, last, whole) =
                turns-own es u g i p v'
                  (on_completed-other asio requests responses strategy j i e h u o apart refl one
                    ∙ found)
                  rest in
              (r, last, rw there whole)
        ]

    -- However the completions of the sessions are interleaved, and whatever clients are accepted
    -- between them: from any state of a running server on, a session goes through its own
    -- completions, one after the other, as if it were alone. So a session is neither reached by
    -- another's completions nor mistaken for a later one.
    pub host_run-own :
        (listening : Option ErrorCode) (before es : List HostEvent) (h g : Host S C D) (i : ℕ)
        (p : Peer S C D)
        → host_run asio requests responses strategy make unset listening before ≡ returns h
        → find_peer i h.peers ≡ some p
        → turns asio requests responses strategy make unset h es ≡ returns g
        → (q : Peer S C D) × (find_peer i g.peers ≡ some q) × (completes p (own i es) ≡ returns q)
    unfolding host_run
    host_run-own listening before es h g i p ran found k =
        let (u, fresh, rest) =
          >>=-eq-returns (new_host asio requests responses strategy make unset listening) _ ran in
        let waits =
          new_host-accept_next asio requests responses strategy make unset listening u fresh in
        let v =
          (accept_next-IsNumbered asio requests responses strategy make unset 0 [] u tt waits).0 in
        turns-own es h g i p
          (turns-IsNumbered asio requests responses strategy make unset before u h v rest) found k
