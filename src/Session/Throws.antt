-- ===== src/Session/Throws.antt =====
-- When a handler of a session throws, and with it the event loop.
use tcpclient_server.Prelude.{ℕ, ◌≡◌, refl, arith, ap, Bool, true, Bool-cases, inl, inr, ◌⊎◌}
use tcpclient_server.Errors.{
  ErrorCode, success, is_error, Exception, system_error, Outcome, throws, no_error-success,
}
use tcpclient_server.Response.{Response}
use tcpclient_server.Connection.{WriteStart}
use tcpclient_server.Session.{
  SessionPoint, initializing, replying, receiving, SessionEvent, initialized, received, delivered,
  Session, on_initialized, on_received, handle_at, handle_event,
}

module _ {C D : Type 0} (strategy : C → Outcome D) (async_write : Response D → WriteStart) where
  on_received_throws :
      (s : Session C D) (ec : ErrorCode) (c : C) (x : Exception)
      → on_received strategy async_write ec c s ≡ throws x
      → (ec ≡ success) × (strategy c ≡ throws x)
  unfolding on_received
  on_received_throws s ec c x h = elim (Bool-cases (is_error ec)) [
    | inl bad ↦ ground arith
    | inr fine ↦ (no_error-success ec fine, ground arith)
  ]

  handle_at_throws :
      (s : Session C D) (p : SessionPoint) (e : SessionEvent C) (x : Exception)
      → s.point ≡ p
      → handle_at strategy async_write p e s ≡ throws x
      → ((ec : ErrorCode) × (s.point ≡ initializing)
          × (e ≡ initialized ec)
          × (is_error ec ≡ true)
          × (x ≡ system_error ec))
        ⊎ ((n : ℕ) × (c : C) × (e ≡ received success n c) × (strategy c ≡ throws x))
  unfolding handle_at on_initialized
  handle_at_throws s initializing (initialized ec) x at h =
      inl (ec, at, refl, ground arith, ground arith)
  handle_at_throws s (receiving first) (received ec n c) x at h =
      let (fine, thrown) = on_received_throws s ec c x h in
      inr (n, c, ap (λ y. received y n c) fine, thrown)
  handle_at_throws s replying (delivered ec n) x at h = cc
  handle_at_throws s _ _ x at h = cc

  -- A handler throws for two reasons only: the initialization failed, and then it is a
  -- `system_error` of that code, or the strategy threw on the data received.
  pub handle_event_throws :
      (s : Session C D) (e : SessionEvent C) (x : Exception)
      → handle_event strategy async_write s e ≡ throws x
      → ((ec : ErrorCode) × (s.point ≡ initializing)
          × (e ≡ initialized ec)
          × (is_error ec ≡ true)
          × (x ≡ system_error ec))
        ⊎ ((n : ℕ) × (c : C) × (e ≡ received success n c) × (strategy c ≡ throws x))
  unfolding handle_event
  handle_event_throws s e x h = handle_at_throws s s.point e x refl h

  pub handle_event_initialized :
      (s : Session C D) (ec : ErrorCode)
      → s.point ≡ initializing
      → is_error ec ≡ true
      → handle_event strategy async_write s (initialized ec) ≡ throws (system_error ec)
  unfolding handle_event handle_at on_initialized
  handle_event_initialized s ec at bad = rw (at, handle_at, on_initialized, bad) refl

  pub handle_event_received :
      (s : Session C D) (first : Bool) (n : ℕ) (c : C) (x : Exception)
      → s.point ≡ receiving first
      → strategy c ≡ throws x
      → handle_event strategy async_write s (received success n c) ≡ throws x
  unfolding handle_event handle_at on_received
  handle_event_received s first n c x at thrown = rw (at, handle_at, thrown) refl
