-- ===== src/Session/Replies.antt =====
-- Every request that a session receives is answered once, by its strategy, before the next is read.
use tcpclient_server.Prelude.{
  ℕ, suc, ◌≡◌, refl, arith, Bool, true, List, [], ◌∷◌, ◌++◌, Bytes, length, length-append,
  Bool-cases, inl, inr, ◌⊎◌,
}
use mathlib.Core.Path.{subst}
use tcpclient_server.Errors.{
  ErrorCode, is_error, Outcome, returns, throws, undefined, ◌>>=◌, >>=-eq-returns,
  returns-injective,
}
use tcpclient_server.Io.{Initialization, called, handshaking}
use tcpclient_server.Response.{Response, ok}
use tcpclient_server.Connection.{WriteStart}
use tcpclient_server.Session.{
  SessionPoint, initializing, replying, closed, receiving, SessionEvent, initialized, received,
  delivered, Session, new_session, do_receive, on_initialized, on_sent, do_initialize, do_reply,
  on_received, handle_at, handle_event, handle_events,
}

module _ {C D : Type 0} (strategy : C → Outcome D) where
  -- The replies are what the strategy returned for the requests, one by one, and marked OK.
  abbrev pub Answers : List C → List (Response D) → Type 0
  Answers [] [] = Unit
  Answers [] (r ∷ rs) = ⊥
  Answers (c ∷ cs) [] = ⊥
  Answers (c ∷ cs) (r ∷ rs) =
      (strategy c ≡ returns r.payload) × (r.transmission_status ≡ ok) × Answers cs rs

  Answers-snoc :
      (cs : List C) (rs : List (Response D)) (c : C) (r : Response D)
      → Answers cs rs
      → strategy c ≡ returns r.payload
      → r.transmission_status ≡ ok
      → Answers (cs ++ (c ∷ [])) (rs ++ (r ∷ []))
  Answers-snoc [] [] c r h e k = (e, k, tt)
  Answers-snoc [] (x ∷ rs) c r h e k = absurd h
  Answers-snoc (x ∷ cs) [] c r h e k = absurd h
  Answers-snoc (x ∷ cs) (y ∷ rs) c r h e k = (h.0, h.1, Answers-snoc cs rs c r h.2 e k)

-- How many replies have been sent, at each program point. While one is being sent it is the last.
abbrev pub Counts : SessionPoint → ℕ → ℕ → Type 0
Counts replying sent replies = replies ≡ suc sent
Counts closed sent replies = (replies ≡ sent) ⊎ (replies ≡ suc sent)
Counts _ sent replies = replies ≡ sent

pub WriteStart-cases :
    (w : WriteStart)
    → ((ec : ErrorCode) × (n : ℕ) × (w ≡ WriteStart.called ec n))
      ⊎ ((buffers : List Bytes) × (w ≡ WriteStart.writing buffers))
WriteStart-cases (WriteStart.called ec n) = inl (ec, n, refl)
WriteStart-cases (WriteStart.writing buffers) = inr (buffers, refl)

pub record IsSession {C D : Type 0} (strategy : C → Outcome D) (s : Session C D) : Type 0 where
  pub answered : Answers strategy s.requests s.replies
  pub counted : Counts s.point s.sent (length s.replies)

module _ {C D : Type 0} (strategy : C → Outcome D) (async_write : Response D → WriteStart) where
  waiting :
      (s : Session C D) (first : Bool)
      → s.point ≡ receiving first
      → IsSession strategy s
      → length s.replies ≡ s.sent
  waiting s first e v = subst (λ p. Counts p s.sent (length s.replies)) e v.counted

  on_sent-IsSession :
      (s : Session C D) (ec : ErrorCode)
      → Answers strategy s.requests s.replies
      → length s.replies ≡ suc s.sent
      → IsSession strategy (on_sent ec s)
  unfolding on_sent do_receive
  on_sent-IsSession s ec a e = ground arith

  do_reply-IsSession :
      (s : Session C D) (c : C) (d : D)
      → Answers strategy s.requests s.replies
      → length s.replies ≡ s.sent
      → strategy c ≡ returns d
      → IsSession strategy (
          do_reply strategy async_write
            (record { transmission_status = ok; payload = d })
            (record s { requests = s.requests ++ (c ∷ []) }))
  unfolding do_reply
  do_reply-IsSession s c d a e h =
      let r : Response D = record { transmission_status = ok; payload = d } in
      let a' : Answers strategy (s.requests ++ (c ∷ [])) (s.replies ++ (r ∷ [])) =
        Answers-snoc strategy s.requests s.replies c r a h refl in
      let more : length (s.replies ++ (r ∷ [])) ≡ suc s.sent =
        omega (arith, length-append s.replies (r ∷ [])) in
      elim (WriteStart-cases (async_write r)) [
        | inl (ec, n, w) ↦
            rw (w, do_reply)
              (on_sent-IsSession
                (record s {
                  point = replying;
                  requests = s.requests ++ (c ∷ []);
                  replies = s.replies ++ (r ∷ []);
                })
                ec a' more)
        | inr (buffers, w) ↦ rw (w, do_reply) (record { answered = a'; counted = more })
      ]

  on_received-IsSession :
      (s s' : Session C D) (first : Bool) (ec : ErrorCode) (c : C)
      → s.point ≡ receiving first
      → IsSession strategy s
      → on_received strategy async_write ec c s ≡ returns s'
      → IsSession strategy s'
  unfolding on_received
  on_received-IsSession s s' first ec c e v h = elim (Bool-cases (is_error ec)) [
    | inl bad ↦
        let eq : returns (record s { point = closed }) ≡ returns s' = ground arith in
        subst (IsSession strategy) (returns-injective eq)
          (record { answered = v.answered; counted = inl (waiting s first e v) })
    | inr fine ↦
        let eq : (strategy c >>= λ answer. returns (
              do_reply strategy async_write (record { transmission_status = ok; payload = answer })
                (record s { requests = s.requests ++ (c ∷ []) })))
            ≡ returns s' =
          ground arith in
        let (d, hd, done) = >>=-eq-returns (strategy c) _ eq in
        subst (IsSession strategy) (returns-injective done)
          (do_reply-IsSession s c d v.answered (waiting s first e v) hd)
  ]

  on_initialized-IsSession :
      (s s' : Session C D) (ec : ErrorCode)
      → s.point ≡ initializing
      → IsSession strategy s
      → on_initialized ec s ≡ returns s'
      → IsSession strategy s'
  unfolding on_initialized do_receive
  on_initialized-IsSession s s' ec at v h =
      let e = subst (λ p. Counts p s.sent (length s.replies)) at v.counted in
      let eq : record s { point = receiving true } ≡ s' = ground arith in
      subst (IsSession strategy) eq (record { answered = v.answered; counted = e })

  handle_at-IsSession :
      (s s' : Session C D) (p : SessionPoint) (e : SessionEvent C)
      → s.point ≡ p
      → IsSession strategy s
      → handle_at strategy async_write p e s ≡ returns s'
      → IsSession strategy s'
  unfolding handle_at
  handle_at-IsSession s s' initializing (initialized ec) at v h =
      on_initialized-IsSession s s' ec at v h
  handle_at-IsSession s s' (receiving first) (received ec n c) at v h =
      on_received-IsSession s s' first ec c at v h
  handle_at-IsSession s s' replying (delivered ec n) at v h =
      subst (IsSession strategy) (returns-injective h) (
        on_sent-IsSession s ec v.answered
          (subst (λ p. Counts p s.sent (length s.replies)) at v.counted))
  handle_at-IsSession s s' _ _ at v h = subst (IsSession strategy) (returns-injective h) v

  pub handle_event-IsSession :
      (s s' : Session C D) (e : SessionEvent C)
      → IsSession strategy s
      → handle_event strategy async_write s e ≡ returns s'
      → IsSession strategy s'
  unfolding handle_event
  handle_event-IsSession s s' e v h = handle_at-IsSession s s' s.point e refl v h

  handle_events-IsSession :
      (s s' : Session C D) (es : List (SessionEvent C))
      → IsSession strategy s
      → handle_events strategy async_write s es ≡ returns s'
      → IsSession strategy s'
  unfolding handle_events
  handle_events-IsSession s s' [] v h = subst (IsSession strategy) (returns-injective h) v
  handle_events-IsSession s s' (e ∷ es) v h =
      let (t, one, rest) = >>=-eq-returns (handle_event strategy async_write s e) _ h in
      handle_events-IsSession t s' es (handle_event-IsSession s t e v one) rest

  pub do_initialize-IsSession :
      (i : Outcome Initialization) (n : ℕ) (s : Session C D)
      → do_initialize i (new_session n) ≡ returns s
      → IsSession strategy s
  unfolding do_initialize on_initialized do_receive new_session
  do_initialize-IsSession (returns (called ec)) n s h =
      let eq : record {
        session_id = n;
        point = receiving true;
        requests = [];
        replies = [];
        sent = 0;
      }
          ≡ s =
        ground arith in
      subst (IsSession strategy) eq (record { answered = tt; counted = refl })
  do_initialize-IsSession (returns (handshaking side)) n s h =
      subst (IsSession strategy) (returns-injective h) (record { answered = tt; counted = refl })
  do_initialize-IsSession (throws x) n s h = cc
  do_initialize-IsSession undefined n s h = cc

  -- A session that has started, after any completions of its operations: its replies are the
  -- strategy's answers to the requests received, in order, each marked OK; and all of them have
  -- been sent, but for the last one while it is being sent or if its transfer failed.
  pub session_replies :
      (i : Outcome Initialization) (n : ℕ) (s s' : Session C D) (es : List (SessionEvent C))
      → do_initialize i (new_session n) ≡ returns s
      → handle_events strategy async_write s es ≡ returns s'
      → Answers strategy s'.requests s'.replies × Counts s'.point s'.sent (length s'.replies)
  session_replies i n s s' es started run =
      let v = handle_events-IsSession s s' es (do_initialize-IsSession i n s started) run in
      (v.answered, v.counted)
