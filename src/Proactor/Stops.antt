-- ===== src/Proactor/Stops.antt =====
-- What ends the event loop of the server down to its transfers, and with it all of its sessions.
use tcpclient_server.Prelude.{
  ℕ, ◌≡◌, refl, ap, ◌↔◌, ◌⊎◌, inl, inr, List, [], ◌∷◌, ◌++◌, none, some, Option, Bool-cases,
  Option-cases,
}
use tcpclient_server.Errors.{
  ErrorCode, is_error, Exception, Outcome, returns, throws, >>=-eq-throws, >>=-eq-returns,
  >>=-throws-cases, system_error,
}
use tcpclient_server.Response.{Response}
use tcpclient_server.Io.{Asio}
use tcpclient_server.Connection.{Archive, Connection}
use tcpclient_server.Proactor.{
  Peer, Completion, Host, HostEvent, client_accepted, completed, complete, find_peer, accept_next,
  open_acceptor, new_host, on_client, on_completed, turn, turns, host_run,
}
use tcpclient_server.Proactor.Faults.{Faults}
use tcpclient_server.Proactor.Outages.{complete-Faults}
use tcpclient_server.Proactor.Beginnings.{do_initialize-returns}

module _ {S C D : Type 0} (asio : Asio S) (requests : Archive C) (responses : Archive (Response D))
    (strategy : C → Outcome D) (make : ℕ → Outcome (Connection S)) (unset : C) where
  -- Why an event stops the loop with an exception: the connection of the next session could not be
  -- made, or the operation of a session completed with one of its faults.
  pub data HostFaults (h : Host S C D) : HostEvent → Exception → Type 0 where
    connection_not_made :
        (ec : ErrorCode) (x : Exception)
        → make h.count ≡ throws x
        → HostFaults h (client_accepted ec) x
    session_faults :
        (i : ℕ) (p : Peer S C D) (e : Completion) (x : Exception)
        → find_peer i h.peers ≡ some p
        → Faults asio requests responses strategy p e x
        → HostFaults h (completed i e) x

  accept_next_throws :
      (n : ℕ) (ps : List (Peer S C D)) (x : Exception)
      → (accept_next asio requests responses strategy make unset n ps ≡ throws x)
        ↔ (make n ≡ throws x)
  unfolding accept_next
  accept_next_throws n ps x = (λ h. >>=-eq-throws (make n) _ h, λ h. rw h refl)

  on_client_throws :
      (ec : ErrorCode) (h : Host S C D) (x : Exception)
      → (on_client asio requests responses strategy make unset ec h ≡ throws x)
        ↔ (make h.count ≡ throws x)
  unfolding on_client
  on_client_throws ec h x = elim (Bool-cases (is_error ec)) [
    | inl bad ↦ rw bad (accept_next_throws h.count h.peers x)
    | inr fine ↦
        let (s, begun) = do_initialize-returns h.waiting.connection h.waiting.session in
        rw (fine, begun) (accept_next_throws h.count (record h.waiting { session = s } ∷ h.peers) x)
  ]

  on_completed_throws :
      (i : ℕ) (e : Completion) (h : Host S C D) (p : Peer S C D) (x : Exception)
      → (on_completed asio requests responses strategy i e h (some p) ≡ throws x)
        ↔ Faults asio requests responses strategy p e x
  unfolding on_completed
  on_completed_throws i e h p x =
      let (why, back) = complete-Faults asio requests responses strategy p e x in
      (
        λ k. why (>>=-eq-throws (complete asio requests responses strategy p e) _ k),
        λ k. rw (back k) refl,
      )

  turn-throws :
      (h : Host S C D) (e : HostEvent) (x : Exception)
      → turn asio requests responses strategy make unset h e ≡ throws x
      → HostFaults h e x
  unfolding turn on_completed
  turn-throws h (client_accepted ec) x k = connection_not_made ec x ((on_client_throws ec h x).0 k)
  turn-throws h (completed i e) x k = elim (Option-cases (find_peer i h.peers)) [
    | inl absent ↦ let gone : returns h ≡ throws x = rw absent at k in cc
    | inr (p, found) ↦
        session_faults i p e x found ((on_completed_throws i e h p x).0 (rw found at k))
  ]

  HostFaults-throws :
      (h : Host S C D) (e : HostEvent) (x : Exception)
      → HostFaults h e x
      → turn asio requests responses strategy make unset h e ≡ throws x
  unfolding turn
  HostFaults-throws h e x (connection_not_made ec y k) = (on_client_throws ec h y).1 k
  HostFaults-throws h e x (session_faults i p c y found k) =
      rw found ((on_completed_throws i c h p y).1 k)

  -- Where a run throws: the events before that one were survived.
  abbrev pub StopsFrom : Host S C D → List HostEvent → Exception → Type 0
  StopsFrom h es x =
      (before after : List HostEvent) × (e : HostEvent) × (u : Host S C D) × (es
        ≡ before ++ (e ∷ after))
      × (turns asio requests responses strategy make unset h before ≡ returns u)
      × HostFaults u e x

  turns-StopsFrom :
      (h : Host S C D) (es : List HostEvent) (x : Exception)
      → turns asio requests responses strategy make unset h es ≡ throws x
      → StopsFrom h es x
  unfolding turns
  turns-StopsFrom h [] x k = cc
  turns-StopsFrom h (e ∷ es) x k =
      elim (>>=-throws-cases (turn asio requests responses strategy make unset h e) _ k) [
        | inl now ↦ ([], es, e, h, refl, refl, turn-throws h e x now)
        | inr (g, survived, later) ↦
            let (before, after, d, u, same, ran, why) = turns-StopsFrom g es x later in
            (e ∷ before, after, d, u, ap (◌∷◌ e) same, rw survived ran, why)
      ]

  turns-throws :
      (h u : Host S C D) (before after : List HostEvent) (e : HostEvent) (x : Exception)
      → turns asio requests responses strategy make unset h before ≡ returns u
      → turn asio requests responses strategy make unset u e ≡ throws x
      → turns asio requests responses strategy make unset h (before ++ (e ∷ after)) ≡ throws x
  unfolding turns
  turns-throws h u [] after e x ran stop = let same : h ≡ u = cc in rw (same, stop) refl
  turns-throws h u (b ∷ before) after e x ran stop =
      let (g, one, rest) =
        >>=-eq-returns (turn asio requests responses strategy make unset h b) _ ran in
      rw one (turns-throws g u before after e x rest stop)

  -- Why the constructor of the server throws: the acceptor cannot listen on the port, or the
  -- connection of the first session cannot be made.
  abbrev pub NeverStarts : Option ErrorCode → Exception → Type 0
  NeverStarts none x = make 0 ≡ throws x
  NeverStarts (some ec) x = x ≡ system_error ec

  new_host_throws :
      (listening : Option ErrorCode) (x : Exception)
      → (new_host asio requests responses strategy make unset listening ≡ throws x)
        ↔ NeverStarts listening x
  unfolding new_host open_acceptor
  new_host_throws none x = accept_next_throws 0 [] x
  new_host_throws (some ec) x = (λ h. cc, λ h. cc)

  -- Why a run ends: the constructor throws, or an event ends it.
  abbrev pub Stops : Option ErrorCode → List HostEvent → Exception → Type 0
  Stops listening es x =
      NeverStarts listening x
      ⊎ ((h : Host S C D) × (new_host asio requests responses strategy make unset listening
            ≡ returns h)
          × StopsFrom h es x)

  run-Stops :
      (listening : Option ErrorCode) (es : List HostEvent) (x : Exception)
      → host_run asio requests responses strategy make unset listening es ≡ throws x
      → Stops listening es x
  unfolding host_run
  run-Stops listening es x k =
      elim (>>=-throws-cases (new_host asio requests responses strategy make unset listening) _ k) [
        | inl now ↦ inl ((new_host_throws listening x).0 now)
        | inr (h, fresh, later) ↦ inr (h, fresh, turns-StopsFrom h es x later)
      ]

  Stops-throws :
      (listening : Option ErrorCode) (es : List HostEvent) (x : Exception)
      → Stops listening es x
      → host_run asio requests responses strategy make unset listening es ≡ throws x
  unfolding host_run
  Stops-throws listening es x (inl never) = rw ((new_host_throws listening x).1 never) refl
  Stops-throws listening es x (inr (h, fresh, (before, after, e, u, same, ran, why))) =
      rw (fresh, same) (turns-throws h u before after e x ran (HostFaults-throws u e x why))

  -- The whole run of the server throws exactly if: the acceptor cannot be opened, bound or set to
  -- listen, and then it throws that failure; or the connection of the first session cannot be
  -- made; or an event occurs, after events that were survived, at which the connection of the next
  -- session cannot be made, or at which the operation of one session completes with one of its
  -- faults. One session then ends all of them.
  pub host_run-Stops :
      (listening : Option ErrorCode) (es : List HostEvent) (x : Exception)
      → (host_run asio requests responses strategy make unset listening es ≡ throws x)
        ↔ Stops listening es x
  host_run-Stops listening es x = (run-Stops listening es x, Stops-throws listening es x)
