-- ===== src/Server/Replies.antt =====
-- The replies of all sessions of a server, whatever the order of their events.
use tcpclient_server.Prelude.{
  ℕ, ◌≡◌, refl, arith, List, [], ◌∷◌, Option, none, some, Bool-cases, ◌==◌, inl, inr,
}
use mathlib.Core.Path.{subst}
use tcpclient_server.Errors.{
  ErrorCode, is_error, Outcome, returns, ◌>>=◌, >>=-eq-returns, returns-injective,
}
use tcpclient_server.Io.{Initialization}
use tcpclient_server.Response.{Response}
use tcpclient_server.Connection.{WriteStart}
use tcpclient_server.Session.{Session, SessionEvent, do_initialize, handle_event}
use tcpclient_server.Session.Replies.{IsSession, handle_event-IsSession, do_initialize-IsSession}
use tcpclient_server.Server.{
  Server, ServerEvent, accepted, session_event, do_accept, new_server, find_session, put_session,
  on_accepted, on_session_event, serve, run,
}
use tcpclient_server.Server.Sessions.{IsServer, serve-IsServer, do_accept-IsServer}

module _ {C D : Type 0} (initialize : Outcome Initialization) (strategy : C → Outcome D)
    (async_write : Response D → WriteStart) where
  abbrev pub AllSessions : List (Session C D) → Type 0
  AllSessions [] = Unit
  AllSessions (s ∷ ss) = IsSession strategy s × AllSessions ss

  find_session-IsSession :
      (i : ℕ) (ss : List (Session C D)) (s : Session C D)
      → AllSessions ss
      → find_session i ss ≡ some s
      → IsSession strategy s
  unfolding find_session
  find_session-IsSession i [] s k h = cc
  find_session-IsSession i (x ∷ ss) s k h = elim (Bool-cases (x.session_id == i)) [
    | inl hit ↦
        let found : some x ≡ some s = rw hit at h in
        let same : x ≡ s = cc in subst (IsSession strategy) same k.0
    | inr miss ↦ find_session-IsSession i ss s k.1 (rw miss at h)
  ]

  put_session-AllSessions :
      (i : ℕ) (t : Session C D) (ss : List (Session C D))
      → IsSession strategy t
      → AllSessions ss
      → AllSessions (put_session i t ss)
  unfolding put_session
  put_session-AllSessions i t [] v k = tt
  put_session-AllSessions i t (s ∷ ss) v k = elim (Bool-cases (s.session_id == i)) [
    | inl hit ↦ rw hit (v, k.1)
    | inr miss ↦ rw miss (k.0, put_session-AllSessions i t ss v k.1)
  ]

  on_accepted-AllSessions :
      (ec : ErrorCode) (v w : Server C D)
      → IsServer v
      → AllSessions v.sessions
      → on_accepted initialize ec v ≡ returns w
      → AllSessions w.sessions
  unfolding on_accepted do_accept
  on_accepted-AllSessions ec v w k all h = elim (Bool-cases (is_error ec)) [
    | inl bad ↦
        let eq : do_accept v.count v.sessions ≡ w = ground arith in
        subst (λ (u : Server C D). AllSessions u.sessions) eq all
    | inr fine ↦
        let eq : (do_initialize initialize v.pending >>= λ started.
        returns (do_accept v.count (started ∷ v.sessions)))
            ≡ returns w =
          ground arith in
        let (s, hs, done) = >>=-eq-returns (do_initialize initialize v.pending) _ eq in
        let valid : IsSession strategy s =
          do_initialize-IsSession strategy async_write initialize v.pending.session_id s
            (subst (λ p. do_initialize initialize p ≡ returns s) k.waits hs) in
        subst (λ (u : Server C D). AllSessions u.sessions) (returns-injective done) (valid, all)
  ]

  on_session_event-AllSessions :
      (i : ℕ) (e : SessionEvent C) (v w : Server C D) (o : Option (Session C D))
      → find_session i v.sessions ≡ o
      → AllSessions v.sessions
      → on_session_event initialize strategy async_write i e v o ≡ returns w
      → AllSessions w.sessions
  unfolding on_session_event
  on_session_event-AllSessions i e v w none f all h =
      subst (λ (u : Server C D). AllSessions u.sessions) (returns-injective h) all
  on_session_event-AllSessions i e v w (some s) f all h =
      let (t, ht, done) = >>=-eq-returns (handle_event strategy async_write s e) _ h in
      subst (λ (u : Server C D). AllSessions u.sessions) (returns-injective done)
        (put_session-AllSessions i t v.sessions
          (handle_event-IsSession strategy async_write s t e
            (find_session-IsSession i v.sessions s all f) ht)
          all)

  serve-AllSessions :
      (v w : Server C D) (e : ServerEvent C)
      → IsServer v
      → AllSessions v.sessions
      → serve initialize strategy async_write v e ≡ returns w
      → AllSessions w.sessions
  unfolding serve
  serve-AllSessions v w (accepted ec) k all h = on_accepted-AllSessions ec v w k all h
  serve-AllSessions v w (session_event i e) k all h =
      on_session_event-AllSessions i e v w (find_session i v.sessions) refl all h

  run-AllSessions :
      (v w : Server C D) (es : List (ServerEvent C))
      → IsServer v
      → AllSessions v.sessions
      → run initialize strategy async_write v es ≡ returns w
      → IsServer w × AllSessions w.sessions
  unfolding run
  run-AllSessions v w [] k all h =
      subst (λ (u : Server C D). IsServer u × AllSessions u.sessions) (returns-injective h) (k, all)
  run-AllSessions v w (e ∷ es) k all h =
      let (u, one, rest) = >>=-eq-returns (serve initialize strategy async_write v e) _ h in
      run-AllSessions u w es (serve-IsServer initialize strategy async_write v u e k one)
        (serve-AllSessions v u e k all one) rest

  -- After any events that the event loop survives, in any order and of any sessions: a new session
  -- waits for the next client under the last number given out, the numbers of the others are
  -- smaller and all different; and the replies of each session are the strategy's answers to its
  -- own requests, in order and marked OK, of which all but possibly the last have been sent.
  pub run-new_server-AllSessions :
      (w : Server C D) (es : List (ServerEvent C))
      → run initialize strategy async_write new_server es ≡ returns w
      → IsServer w × AllSessions w.sessions
  unfolding new_server
  run-new_server-AllSessions w es h = run-AllSessions _ w es (do_accept-IsServer 0 [] tt) tt h
