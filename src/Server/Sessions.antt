-- ===== src/Server/Sessions.antt =====
-- The sessions of a server: their numbers, and that an event of one leaves the others alone.
use tcpclient_server.Prelude.{
  ℕ, suc, ◌≤◌, ◌<◌, ◌≡◌, refl, ◌≢◌, arith, ap, ◌∙◌, sym, List, [], ◌∷◌, Option, none, some,
  Bool-cases, inl, inr,
}
use mathlib.Core.Path.{subst}
use tcpclient_server.Errors.{
  ErrorCode, is_error, Outcome, returns, ◌>>=◌, >>=-eq-returns, returns-injective,
}
use tcpclient_server.Io.{Initialization}
use tcpclient_server.Response.{Response}
use tcpclient_server.Connection.{WriteStart}
use tcpclient_server.Session.{Session, SessionEvent, new_session, do_initialize, handle_event}
use tcpclient_server.Session.Numbers.{handle_event-session_id, do_initialize-session_id}
use tcpclient_server.Server.{
  Server, ServerEvent, accepted, session_event, do_accept, new_server, find_session, put_session,
  on_accepted, on_session_event, serve, run,
}

-- The numbers fall along the list and stay below the bound, so no two are equal.
abbrev pub Numbered : {C D : Type 0} → ℕ → List (Session C D) → Type 0
Numbered n [] = Unit
Numbered n (s ∷ ss) = (s.session_id < n) × Numbered s.session_id ss

-- The session that waits for a client is new and has the last number given out.
pub record IsServer {C D : Type 0} (v : Server C D) : Type 0 where
  pub waits : v.pending ≡ new_session v.pending.session_id
  pub last : v.count ≡ suc v.pending.session_id
  pub numbered : Numbered v.pending.session_id v.sessions

module _ {C D : Type 0} where
  Numbered-mono : (m n : ℕ) (ss : List (Session C D)) → m ≤ n → Numbered m ss → Numbered n ss
  Numbered-mono m n [] h k = tt
  Numbered-mono m n (s ∷ ss) h k = (omega arith, k.1)

  put_session-Numbered :
      (i n : ℕ) (t : Session C D) (ss : List (Session C D))
      → t.session_id ≡ i
      → Numbered n ss
      → Numbered n (put_session i t ss)
  unfolding put_session
  put_session-Numbered i n t [] e k = tt
  put_session-Numbered i n t (s ∷ ss) e k =
      ground (arith, put_session-Numbered i s.session_id t ss e k.1)

  find_session-session_id :
      (i : ℕ) (ss : List (Session C D)) (s : Session C D)
      → find_session i ss ≡ some s
      → s.session_id ≡ i
  unfolding find_session
  find_session-session_id i [] s h = cc
  find_session-session_id i (x ∷ ss) s h = ground (arith, find_session-session_id i ss s)

  find_session-put_ne :
      (i j : ℕ) (t : Session C D) (ss : List (Session C D))
      → t.session_id ≡ i
      → i ≢ j
      → find_session j (put_session i t ss) ≡ find_session j ss
  unfolding find_session put_session
  find_session-put_ne i j t [] e h = refl
  find_session-put_ne i j t (s ∷ ss) e h = ground (arith, find_session-put_ne i j t ss e)

  -- After a client, or a failure to get one, the next session waits.
  pub do_accept-IsServer :
      (n : ℕ) (ss : List (Session C D)) → Numbered n ss → IsServer (do_accept n ss)
  unfolding do_accept
  do_accept-IsServer n ss k =
      unfold new_session in record { waits = refl; last = refl; numbered = k }

  on_accepted-IsServer :
      (i : Outcome Initialization) (ec : ErrorCode) (v w : Server C D)
      → IsServer v
      → on_accepted i ec v ≡ returns w
      → IsServer w
  unfolding on_accepted
  on_accepted-IsServer i ec v w k h = elim (Bool-cases (is_error ec)) [
    | inl bad ↦
        let eq : do_accept v.count v.sessions ≡ w = ground arith in
        subst IsServer eq (
          do_accept-IsServer v.count v.sessions (
            Numbered-mono v.pending.session_id v.count v.sessions (omega (arith, k.last))
              k.numbered))
    | inr fine ↦
        let eq : (do_initialize i v.pending >>= λ started.
        returns (do_accept v.count (started ∷ v.sessions)))
            ≡ returns w =
          ground arith in
        let (s, hs, done) = >>=-eq-returns (do_initialize i v.pending) _ eq in
        let same = do_initialize-session_id i v.pending s hs in
        subst IsServer (returns-injective done) (
          do_accept-IsServer v.count (s ∷ v.sessions)
            (omega (arith, k.last, same), rw same k.numbered))
  ]

module _ {C D : Type 0} (initialize : Outcome Initialization) (strategy : C → Outcome D)
    (async_write : Response D → WriteStart) where
  on_session_event-IsServer :
      (i : ℕ) (e : SessionEvent C) (v w : Server C D) (o : Option (Session C D))
      → find_session i v.sessions ≡ o
      → IsServer v
      → on_session_event initialize strategy async_write i e v o ≡ returns w
      → IsServer w
  unfolding on_session_event
  on_session_event-IsServer i e v w none f k h = subst IsServer (returns-injective h) k
  on_session_event-IsServer i e v w (some s) f k h =
      let (t, ht, done) = >>=-eq-returns (handle_event strategy async_write s e) _ h in
      let same =
        handle_event-session_id strategy async_write s t e ht
        ∙ find_session-session_id i v.sessions s f in
      subst IsServer (returns-injective done) (record {
        waits = k.waits;
        last = k.last;
        numbered = put_session-Numbered i v.pending.session_id t v.sessions same k.numbered;
      })

  pub serve-IsServer :
      (v w : Server C D) (e : ServerEvent C)
      → IsServer v
      → serve initialize strategy async_write v e ≡ returns w
      → IsServer w
  unfolding serve
  serve-IsServer v w (accepted ec) k h = on_accepted-IsServer initialize ec v w k h
  serve-IsServer v w (session_event i e) k h =
      on_session_event-IsServer i e v w (find_session i v.sessions) refl k h

  run-IsServer :
      (v w : Server C D) (es : List (ServerEvent C))
      → IsServer v
      → run initialize strategy async_write v es ≡ returns w
      → IsServer w
  unfolding run
  run-IsServer v w [] k h = subst IsServer (returns-injective h) k
  run-IsServer v w (e ∷ es) k h =
      let (u, one, rest) = >>=-eq-returns (serve initialize strategy async_write v e) _ h in
      run-IsServer u w es (serve-IsServer v u e k one) rest

  -- After any events that the event loop survives, a new session waits for the next client, its
  -- number is the last one given out, and the numbers of the sessions before it are all smaller
  -- and all different.
  pub run-new_server-IsServer :
      (w : Server C D) (es : List (ServerEvent C))
      → run initialize strategy async_write new_server es ≡ returns w
      → IsServer w
  unfolding new_server
  run-new_server-IsServer w es h = run-IsServer _ w es (do_accept-IsServer 0 [] tt) h

  -- An event of one session, if the event loop survives it, leaves every other session, the
  -- counter and the waiting session as they were.
  pub serve_isolated :
      (i j : ℕ) (e : SessionEvent C) (v w : Server C D)
      → i ≢ j
      → serve initialize strategy async_write v (session_event i e) ≡ returns w
      → (find_session j w.sessions ≡ find_session j v.sessions)
        × (w.count ≡ v.count)
        × (w.pending ≡ v.pending)
  unfolding serve
  serve_isolated i j e v w ne h = go (find_session i v.sessions) refl h
    where
      go :
          (o : Option (Session C D))
          → find_session i v.sessions ≡ o
          → on_session_event initialize strategy async_write i e v o ≡ returns w
          → (find_session j w.sessions ≡ find_session j v.sessions)
            × (w.count ≡ v.count)
            × (w.pending ≡ v.pending)
      go none f g = unfold on_session_event in (ground arith, ground arith, ground arith)
      go (some s) f g =
          unfold on_session_event in
          let (t, ht, done) = >>=-eq-returns (handle_event strategy async_write s e) _ g in
          let same =
            handle_event-session_id strategy async_write s t e ht
            ∙ find_session-session_id i v.sessions s f in
          let eq = returns-injective done in
          (
            ap (λ (u : Server C D). find_session j u.sessions) (sym eq)
                ∙ find_session-put_ne i j t v.sessions same ne,
            ap (λ (u : Server C D). u.count) (sym eq),
            ap (λ (u : Server C D). u.pending) (sym eq),
          )
