-- ===== src/Session/Pending.antt =====
-- What a session has done, when it waits for the end of a write.
use tcpclient_server.Prelude.{
  ◌≡◌, refl, sym, ap, true, arith, List, [], ◌∷◌, ◌++◌, Bytes, Bool-cases, inl, inr, ◌⊎◌,
}
use mathlib.Core.Path.{subst}
use tcpclient_server.Errors.{
  ErrorCode, success, is_error, Outcome, returns, throws, undefined, >>=-eq-returns,
  returns-injective,
}
use tcpclient_server.Io.{Initialization, called, handshaking}
use tcpclient_server.Response.{Response, ok}
use tcpclient_server.Connection.{WriteStart, writing}
use tcpclient_server.Session.{
  SessionPoint, created, initializing, replying, closed, receiving, SessionEvent, initialized,
  received, delivered, Session, do_receive, on_initialized, on_sent, do_initialize, do_reply,
  on_received, handle_at, handle_event,
}
use tcpclient_server.Session.Replies.{WriteStart-cases}

-- A session neither writes, nor has still to start.
abbrev pub IsElsewhere : SessionPoint → Type 0
IsElsewhere replying = ⊥
IsElsewhere created = ⊥
IsElsewhere _ = Unit

-- A session reads or is closed.
abbrev pub IsSettled : SessionPoint → Type 0
IsSettled replying = ⊥
IsSettled created = ⊥
IsSettled initializing = ⊥
IsSettled _ = Unit

pub IsSettled-IsElsewhere : (p : SessionPoint) → IsSettled p → IsElsewhere p
IsSettled-IsElsewhere created h = absurd h
IsSettled-IsElsewhere initializing h = tt
IsSettled-IsElsewhere replying h = absurd h
IsSettled-IsElsewhere (receiving first) h = tt
IsSettled-IsElsewhere closed h = tt

module _ {C D : Type 0} (strategy : C → Outcome D) (async_write : Response D → WriteStart) where
  -- The session is where it was; or the write of one more reply is pending; or no write is.
  abbrev pub Moves : Session C D → Session C D → Type 0
  Moves s t =
      (t ≡ s)
      ⊎ ((r : Response D) × (bs : List Bytes) × (t.replies ≡ s.replies ++ (r ∷ []))
          × (async_write r ≡ writing bs)
          × (t.point ≡ replying))
      ⊎ IsSettled t.point

  on_sent-IsSettled : (ec : ErrorCode) (s : Session C D) → IsSettled (on_sent ec s).point
  unfolding on_sent do_receive
  on_sent-IsSettled ec s = elim (Bool-cases (is_error ec)) [
    | inl bad ↦ rw bad tt
    | inr fine ↦ rw fine tt
  ]

  do_reply-Moves :
      (s s' : Session C D) (r : Response D)
      → s'.replies ≡ s.replies
      → Moves s (do_reply strategy async_write r s')
  unfolding do_reply
  do_reply-Moves s s' r same = elim (WriteStart-cases (async_write r)) [
    | inl (ec, n, w) ↦
        rw (w, do_reply)
          (inr (
            inr (
              on_sent-IsSettled ec
                (record s' { point = replying; replies = s'.replies ++ (r ∷ []) }))))
    | inr (bs, w) ↦ rw (w, do_reply) (inr (inl (r, bs, ap (λ rs. rs ++ (r ∷ [])) same, w, refl)))
  ]

  on_received-Moves :
      (s t : Session C D) (ec : ErrorCode) (c : C)
      → on_received strategy async_write ec c s ≡ returns t
      → Moves s t
  unfolding on_received
  on_received-Moves s t ec c h = elim (Bool-cases (is_error ec)) [
    | inl bad ↦
        let same : record s { point = closed } ≡ t = returns-injective (rw bad at h) in
        inr (inr (subst (λ x. IsSettled x.point) same tt))
    | inr fine ↦
        let (d, answered, done) = >>=-eq-returns (strategy c) _ (rw fine at h) in
        subst (Moves s) (returns-injective done) (
          do_reply-Moves s (record s { requests = s.requests ++ (c ∷ []) })
            (record { transmission_status = ok; payload = d }) refl)
  ]

  on_initialized-Moves :
      (s t : Session C D) (ec : ErrorCode) → on_initialized ec s ≡ returns t → Moves s t
  unfolding on_initialized do_receive
  on_initialized-Moves s t ec h =
      let same : record s { point = receiving true } ≡ t = ground arith in
      inr (inr (subst (λ x. IsSettled x.point) same tt))

  handle_at-Moves :
      (s t : Session C D) (p : SessionPoint) (e : SessionEvent C)
      → handle_at strategy async_write p e s ≡ returns t
      → Moves s t
  unfolding handle_at
  handle_at-Moves s t initializing (initialized ec) h = on_initialized-Moves s t ec h
  handle_at-Moves s t (receiving first) (received ec n c) h = on_received-Moves s t ec c h
  handle_at-Moves s t replying (delivered ec n) h =
      inr (inr (subst (λ x. IsSettled x.point) (returns-injective h) (on_sent-IsSettled ec s)))
  handle_at-Moves s t _ _ h = inl (sym (returns-injective h))

  pub handle_event-Moves :
      (s t : Session C D) (e : SessionEvent C)
      → handle_event strategy async_write s e ≡ returns t
      → Moves s t
  unfolding handle_event
  handle_event-Moves s t e h = handle_at-Moves s t s.point e h

module _ {C D : Type 0} where
  pub do_initialize-IsElsewhere :
      (i : Outcome Initialization) (s t : Session C D)
      → do_initialize i s ≡ returns t
      → IsElsewhere t.point
  unfolding do_initialize on_initialized do_receive
  do_initialize-IsElsewhere (returns (called ec)) s t h =
      let same : record s { point = receiving true } ≡ t = ground arith in
      subst (λ x. IsElsewhere x.point) same tt
  do_initialize-IsElsewhere (returns (handshaking side)) s t h =
      subst (λ x. IsElsewhere x.point) (returns-injective h) tt
  do_initialize-IsElsewhere (throws e) s t h = cc
  do_initialize-IsElsewhere undefined s t h = cc

  -- A session that is initialized at once has settled.
  pub do_initialize-unsecured :
      (s t : Session C D)
      → do_initialize (returns (called success)) s ≡ returns t
      → IsSettled t.point
  unfolding do_initialize on_initialized do_receive
  do_initialize-unsecured s t h = subst (λ x. IsSettled x.point) (returns-injective h) tt
