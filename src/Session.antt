-- ===== src/Session.antt =====
-- ClientServerFramework/Server/Session.hpp. A session waits at a program point for the completion
-- of the operation that it has started; a completion is an event, and a handler returns the session
-- or throws out of the event loop. The strategy, and `async_write` of the connection on a response,
-- are parameters. `requests`, `replies` and `sent` record what was received, replied and sent so
-- far.
pub mod Numbers
pub mod Replies
pub mod Throws
pub mod Pending
pub mod Turns
pub mod Tests
use tcpclient_server.Prelude.{ℕ, suc, Bool, true, false, List, [], ◌∷◌, ◌++◌, if◌then◌else◌}
use tcpclient_server.Errors.{
  ErrorCode, success, is_error, Exception, system_error, Outcome, returns, throws, undefined, ◌>>=◌,
}
use tcpclient_server.Response.{Response, ok}
use tcpclient_server.Io.{Initialization, called, handshaking}
use tcpclient_server.Connection.{WriteStart}

-- `closed`: no callback is pending, so nothing keeps the session alive.
pub data SessionPoint : Type 0 where
  created initializing replying closed : SessionPoint
  receiving : Bool → SessionPoint

pub data SessionEvent (C : Type 0) : Type 0 where
  initialized : ErrorCode → SessionEvent C
  received : ErrorCode → ℕ → C → SessionEvent C
  delivered : ErrorCode → ℕ → SessionEvent C

pub record Session (C D : Type 0) : Type 0 where
  pub session_id : ℕ
  pub point : SessionPoint
  pub requests : List C
  pub replies : List (Response D)
  pub sent : ℕ

module _ {C D : Type 0} where
  -- The constructor, with the counter's value.
  unfoldable pub new_session : ℕ → Session C D
  new_session count = record {
    session_id = count;
    point = created;
    requests = [];
    replies = [];
    sent = 0;
  }

  -- `do_receive`: the read is pending.
  pub do_receive : Bool → Session C D → Session C D
  do_receive first s = record s { point = receiving first }

  -- The handler of `async_initialize`.
  unfoldable pub on_initialized : ErrorCode → Session C D → Outcome (Session C D)
  unfolding do_receive
  on_initialized ec s =
      if is_error ec then throws (system_error ec) else returns (do_receive true s)

  -- The handler of `async_write`.
  pub on_sent : ErrorCode → Session C D → Session C D
  unfolding do_receive
  on_sent ec s =
      if is_error ec
      then record s { point = closed }
      else do_receive false (record s { sent = suc s.sent })

  -- `do_initialize`: the connection calls the handler at once or leaves a handshake pending.
  -- `start` catches an `error_code` only, which no handler throws.
  unfoldable pub do_initialize : Outcome Initialization → Session C D → Outcome (Session C D)
  unfolding on_initialized
  do_initialize (returns (called ec)) s = on_initialized ec s
  do_initialize (returns (handshaking side)) s = returns (record s { point = initializing })
  do_initialize (throws e) s = throws e
  do_initialize undefined s = undefined

module _ {C D : Type 0} (strategy : C → Outcome D) (async_write : Response D → WriteStart) where
  -- `do_reply`: `async_write` calls the handler at once or leaves the write pending.
  pub do_reply : Response D → Session C D → Session C D
  unfolding on_sent
  do_reply response s =
      let s' = record s { point = replying; replies = s.replies ++ (response ∷ []) } in
      elim (async_write response) [
        | WriteStart.called ec n ↦ on_sent ec s'
        | WriteStart.writing buffers ↦ s'
      ]

  -- The handler of `async_read`.
  pub on_received : ErrorCode → C → Session C D → Outcome (Session C D)
  unfolding do_reply
  on_received ec cdata s = if is_error ec then returns (record s { point = closed }) else do
    answer ← strategy cdata
    returns (
        do_reply (record { transmission_status = ok; payload = answer })
          (record s { requests = s.requests ++ (cdata ∷ []) }))

  -- The completion of the operation that is pending at a program point. No other one can occur.
  handle_at : SessionPoint → SessionEvent C → Session C D → Outcome (Session C D)
  unfolding on_received on_initialized on_sent
  handle_at initializing (initialized ec) s = on_initialized ec s
  handle_at (receiving first) (received ec n cdata) s = on_received ec cdata s
  handle_at replying (delivered ec n) s = returns (on_sent ec s)
  handle_at _ _ s = returns s

  unfoldable pub handle_event : Session C D → SessionEvent C → Outcome (Session C D)
  unfolding handle_at
  handle_event s e = handle_at s.point e s

  pub handle_events : Session C D → List (SessionEvent C) → Outcome (Session C D)
  handle_events s [] = returns s
  handle_events s (e ∷ es) = do s' ← handle_event s e; handle_events s' es
