-- ===== src/Server/Failure.antt =====
-- What ends the event loop of a server by the handlers of the acceptor and of the sessions, which
-- are given messages that are decoded already. Proactor.antt has what ends it by the transfers.
use tcpclient_server.Prelude.{
  ℕ, ap, [], ◌++◌, ◌≡◌, refl, Bool, true, false, List, ◌∷◌, some, Bool-cases, Option-cases, inl,
  inr, ◌⊎◌, arith,
}
use tcpclient_server.Errors.{
  ErrorCode, success, is_error, Exception, system_error, Outcome, returns, undefined, throws,
  >>=-eq-throws, >>=-throws-cases,
}
use tcpclient_server.Io.{Initialization, called, handshaking}
use tcpclient_server.Response.{Response}
use tcpclient_server.Connection.{WriteStart}
use tcpclient_server.Session.{
  initializing, receiving, Session, SessionEvent, initialized, received, do_initialize,
  on_initialized, handle_event,
}
use tcpclient_server.Session.Throws.{
  handle_event_initialized, handle_event_received, handle_event_throws,
}
use tcpclient_server.Server.{
  Server, ServerEvent, accepted, session_event, do_accept, on_accepted, put_session, find_session,
  on_session_event, serve, run,
}

module _ {C D : Type 0} (initialize : Outcome Initialization) (strategy : C → Outcome D)
    (async_write : Response D → WriteStart) where
  -- One client whose handshake fails ends the event loop, whatever other sessions there are.
  pub failed_handshake_stops :
      (v : Server C D) (i : ℕ) (s : Session C D) (ec : ErrorCode) (es : List (ServerEvent C))
      → find_session i v.sessions ≡ some s
      → s.point ≡ initializing
      → is_error ec ≡ true
      → run initialize strategy async_write v (session_event i (initialized ec) ∷ es)
        ≡ throws (system_error ec)
  unfolding run serve on_session_event
  failed_handshake_stops v i s ec es found at bad =
      rw (found, on_session_event, handle_event_initialized strategy async_write s ec at bad) refl

  -- One client whose data makes the strategy throw, as an invalid operation does, ends the event
  -- loop with that exception.
  pub thrown_strategy_stops :
      (v : Server C D) (i : ℕ) (s : Session C D) (first : Bool) (n : ℕ) (c : C) (x : Exception)
      (es : List (ServerEvent C))
      → find_session i v.sessions ≡ some s
      → s.point ≡ receiving first
      → strategy c ≡ throws x
      → run initialize strategy async_write v (session_event i (received success n c) ∷ es)
        ≡ throws x
  unfolding run serve on_session_event
  thrown_strategy_stops v i s first n c x es found at thrown =
      rw
        (
          found,
          on_session_event,
          handle_event_received strategy async_write s first n c x at thrown,
        )
        refl

-- Why the handlers of an event stop the loop with an exception: the initialization of the accepted
-- client threw or failed, a handshake failed, or the strategy threw on the data of a session.
pub data Ends {C D : Type 0} (initialize : Outcome Initialization) (strategy : C → Outcome D)
    (v : Server C D) : ServerEvent C → Exception → Type 0 where
  initialization_thrown :
      (ec : ErrorCode) (x : Exception)
      → is_error ec ≡ false
      → initialize ≡ throws x
      → Ends initialize strategy v (accepted ec) x
  initialization_failed :
      (ec code : ErrorCode)
      → is_error ec ≡ false
      → initialize ≡ returns (called code)
      → is_error code ≡ true
      → Ends initialize strategy v (accepted ec) (system_error code)
  handshake_failed :
      (i : ℕ) (s : Session C D) (ec : ErrorCode)
      → find_session i v.sessions ≡ some s
      → s.point ≡ initializing
      → is_error ec ≡ true
      → Ends initialize strategy v (session_event i (initialized ec)) (system_error ec)
  strategy_thrown :
      (i : ℕ) (s : Session C D) (n : ℕ) (c : C) (x : Exception)
      → find_session i v.sessions ≡ some s
      → strategy c ≡ throws x
      → Ends initialize strategy v (session_event i (received success n c)) x

module _ {C D : Type 0} (initialize : Outcome Initialization) (strategy : C → Outcome D)
    (async_write : Response D → WriteStart) where
  do_initialize_throws :
      (o : Outcome Initialization) (s : Session C D) (x : Exception)
      → do_initialize o s ≡ throws x
      → (o ≡ throws x)
        ⊎ ((code : ErrorCode) × (o ≡ returns (called code))
            × (is_error code ≡ true)
            × (x ≡ system_error code))
  unfolding do_initialize on_initialized
  do_initialize_throws (returns (called code)) s x h = elim (Bool-cases (is_error code)) [
    | inl bad ↦ inr (code, refl, bad, ground arith)
    | inr fine ↦ ground arith
  ]
  do_initialize_throws (returns (handshaking side)) s x h = cc
  do_initialize_throws (throws e) s x h = inl cc
  do_initialize_throws undefined s x h = cc

  on_accepted_throws :
      (ec : ErrorCode) (v : Server C D) (x : Exception)
      → on_accepted initialize ec v ≡ throws x
      → (is_error ec ≡ false) × (do_initialize initialize v.pending ≡ throws x)
  unfolding on_accepted
  on_accepted_throws ec v x h = elim (Bool-cases (is_error ec)) [
    | inl bad ↦ ground arith
    | inr fine ↦ (
      fine,
      >>=-eq-throws (do_initialize initialize v.pending) (λ s. do_accept v.count (s ∷ v.sessions))
          (rw fine at h),
    )
  ]

  serve_accepted_throws :
      (ec : ErrorCode) (v : Server C D) (x : Exception)
      → on_accepted initialize ec v ≡ throws x
      → Ends initialize strategy v (accepted ec) x
  serve_accepted_throws ec v x h =
      let (fine, thrown) = on_accepted_throws ec v x h in
      elim (do_initialize_throws initialize v.pending x thrown) [
        | inl same ↦ initialization_thrown ec x fine same
        | inr (code, same, bad, e) ↦ rw e (initialization_failed ec code fine same bad)
      ]

  serve_session_throws :
      (i : ℕ) (e : SessionEvent C) (v : Server C D) (s : Session C D) (x : Exception)
      → find_session i v.sessions ≡ some s
      → handle_event strategy async_write s e ≡ throws x
      → Ends initialize strategy v (session_event i e) x
  serve_session_throws i e v s x found h = elim (handle_event_throws strategy async_write s e x h) [
    | inl (ec, at, same, bad, y) ↦ rw (same, y) (handshake_failed i s ec found at bad)
    | inr (n, c, same, thrown) ↦ rw same (strategy_thrown i s n c x found thrown)
  ]

  -- The handlers of an event stop the loop by an exception for four reasons only: the
  -- initialization of the accepted client threw or failed, the handshake of a client failed, or the
  -- strategy threw on the data that a session received. Every other error leaves the loop running.
  pub serve_throws :
      (v : Server C D) (e : ServerEvent C) (x : Exception)
      → serve initialize strategy async_write v e ≡ throws x
      → Ends initialize strategy v e x
  unfolding serve on_session_event
  serve_throws v (accepted ec) x h = serve_accepted_throws ec v x h
  serve_throws v (session_event i e) x h = elim (Option-cases (find_session i v.sessions)) [
    | inl absent ↦ let gone : returns v ≡ throws x = rw (absent, on_session_event) at h in cc
    | inr (s, found) ↦ serve_session_throws i e v s x found (
        >>=-eq-throws (handle_event strategy async_write s e)
          (λ t. record v { sessions = put_session i t v.sessions })
          (rw (found, on_session_event) at h))
  ]

  -- Where a run throws: the events before that one were survived.
  abbrev pub Stops : Server C D → List (ServerEvent C) → Exception → Type 0
  Stops v es x =
      (before after : List (ServerEvent C)) × (e : ServerEvent C) × (u : Server C D) × (es
        ≡ before ++ (e ∷ after))
      × (run initialize strategy async_write v before ≡ returns u)
      × Ends initialize strategy u e x

  pub run-Stops :
      (v : Server C D) (es : List (ServerEvent C)) (x : Exception)
      → run initialize strategy async_write v es ≡ throws x
      → Stops v es x
  unfolding run
  run-Stops v [] x h = cc
  run-Stops v (e ∷ es) x h =
      elim (>>=-throws-cases (serve initialize strategy async_write v e) _ h) [
        | inl now ↦ ([], es, e, v, refl, refl, serve_throws v e x now)
        | inr (w, survived, later) ↦
            let (before, after, d, u, same, ran, why) = run-Stops w es x later in
            (e ∷ before, after, d, u, ap (◌∷◌ e) same, rw survived ran, why)
      ]
