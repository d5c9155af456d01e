-- ===== src/Session/Numbers.antt =====
-- No handler changes the number of its session.
use tcpclient_server.Prelude.{◌≡◌, arith, ap, ◌∙◌, sym, [], ◌∷◌, ◌++◌, Bool-cases, inl, inr}
use tcpclient_server.Errors.{
  ErrorCode, is_error, Outcome, returns, throws, undefined, ◌>>=◌, >>=-eq-returns,
  returns-injective,
}
use tcpclient_server.Io.{Initialization, called, handshaking}
use tcpclient_server.Response.{Response, ok}
use tcpclient_server.Connection.{WriteStart}
use tcpclient_server.Session.{
  SessionPoint, initializing, replying, receiving, SessionEvent, initialized, received, delivered,
  Session, do_receive, on_initialized, on_sent, do_initialize, do_reply, on_received, handle_at,
  handle_event,
}

module _ {C D : Type 0} where
  on_sent-session_id : (ec : ErrorCode) (s : Session C D) → (on_sent ec s).session_id ≡ s.session_id
  unfolding on_sent do_receive
  on_sent-session_id ec s = ground arith

  on_initialized-session_id :
      (ec : ErrorCode) (s t : Session C D)
      → on_initialized ec s ≡ returns t
      → t.session_id ≡ s.session_id
  unfolding on_initialized do_receive
  on_initialized-session_id ec s t h = ground arith

  pub do_initialize-session_id :
      (i : Outcome Initialization) (s t : Session C D)
      → do_initialize i s ≡ returns t
      → t.session_id ≡ s.session_id
  unfolding do_initialize
  do_initialize-session_id (returns (called ec)) s t h = on_initialized-session_id ec s t h
  do_initialize-session_id (returns (handshaking side)) s t h = ground arith
  do_initialize-session_id (throws x) s t h = cc
  do_initialize-session_id undefined s t h = cc

module _ {C D : Type 0} (strategy : C → Outcome D) (async_write : Response D → WriteStart) where
  do_reply-session_id :
      (r : Response D) (s : Session C D)
      → (do_reply strategy async_write r s).session_id ≡ s.session_id
  unfolding do_reply on_sent do_receive
  do_reply-session_id r s = ground arith

  on_received-session_id :
      (ec : ErrorCode) (c : C) (s t : Session C D)
      → on_received strategy async_write ec c s ≡ returns t
      → t.session_id ≡ s.session_id
  unfolding on_received
  on_received-session_id ec c s t h = elim (Bool-cases (is_error ec)) [
    | inl bad ↦ ground arith
    | inr fine ↦
        let eq : (strategy c >>= λ answer. returns (
              do_reply strategy async_write (record { transmission_status = ok; payload = answer })
                (record s { requests = s.requests ++ (c ∷ []) })))
            ≡ returns t =
          ground arith in
        let (d, hd, done) = >>=-eq-returns (strategy c) _ eq in
        ap (λ u. u.session_id) (sym (returns-injective done))
        ∙ do_reply-session_id (record { transmission_status = ok; payload = d })
            (record s { requests = s.requests ++ (c ∷ []) })
  ]

  handle_at-session_id :
      (p : SessionPoint) (e : SessionEvent C) (s t : Session C D)
      → handle_at strategy async_write p e s ≡ returns t
      → t.session_id ≡ s.session_id
  unfolding handle_at
  handle_at-session_id initializing (initialized ec) s t h = on_initialized-session_id ec s t h
  handle_at-session_id (receiving first) (received ec n c) s t h = on_received-session_id ec c s t h
  handle_at-session_id replying (delivered ec n) s t h =
      ap (λ (u : Session C D). u.session_id) (sym (returns-injective h)) ∙ on_sent-session_id ec s
  handle_at-session_id _ _ s t h =
      ap (λ (u : Session C D). u.session_id) (sym (returns-injective h))

  pub handle_event-session_id :
      (s t : Session C D) (e : SessionEvent C)
      → handle_event strategy async_write s e ≡ returns t
      → t.session_id ≡ s.session_id
  unfolding handle_event
  handle_event-session_id s t e h = handle_at-session_id s.point e s t h
