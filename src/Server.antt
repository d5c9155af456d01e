-- ===== src/Server.antt =====
-- ClientServerFramework/Server/AsyncServer.hpp with the static counter of Session.hpp: one event
-- loop that runs the handlers of the acceptor and of all sessions. What a handler throws ends the
-- loop. The newest session stands first. `initialize` is `async_initialize` of a connection, whose
-- constructor is taken to succeed; messages are decoded already. Proactor.antt has neither limit.
pub mod Sessions
pub mod Replies
pub mod Failure
pub mod Tests
use tcpclient_server.Prelude.{
  ℕ, suc, Bool, true, false, List, [], ◌∷◌, Option, none, some, ◌==◌, if◌then◌else◌,
}
use tcpclient_server.Errors.{ErrorCode, is_error, Outcome, returns, throws, undefined, ◌>>=◌}
use tcpclient_server.Response.{Response}
use tcpclient_server.Io.{Initialization}
use tcpclient_server.Connection.{WriteStart}
use tcpclient_server.Session.{Session, SessionEvent, new_session, do_initialize, handle_event}

-- `pending` is the new session whose connection waits for a client.
pub record Server (C D : Type 0) : Type 0 where
  pub count : ℕ
  pub pending : Session C D
  pub sessions : List (Session C D)

pub data ServerEvent (C : Type 0) : Type 0 where
  accepted : ErrorCode → ServerEvent C
  session_event : ℕ → SessionEvent C → ServerEvent C

module _ {C D : Type 0} where
  -- `do_accept`: a new session takes the counter's value and waits for a client.
  unfoldable pub do_accept : ℕ → List (Session C D) → Server C D
  do_accept count sessions = record {
    count = suc count;
    pending = new_session count;
    sessions = sessions;
  }

  -- The constructor.
  unfoldable pub new_server : Server C D
  unfolding do_accept
  new_server = do_accept 0 []

  unfoldable pub find_session : ℕ → List (Session C D) → Option (Session C D)
  find_session i [] = none
  find_session i (s ∷ ss) = if s.session_id == i then some s else find_session i ss

  unfoldable pub put_session : ℕ → Session C D → List (Session C D) → List (Session C D)
  put_session i t [] = []
  put_session i t (s ∷ ss) = if s.session_id == i then t ∷ ss else s ∷ put_session i t ss

  -- The handler of `async_accept`: a session with a client starts, and in any case the next one
  -- waits.
  unfoldable pub on_accepted :
      Outcome Initialization → ErrorCode → Server C D → Outcome (Server C D)
  unfolding do_accept
  on_accepted initialize ec v = if is_error ec then returns (do_accept v.count v.sessions) else do
    started ← do_initialize initialize v.pending
    returns (do_accept v.count (started ∷ v.sessions))

module _ {C D : Type 0} (initialize : Outcome Initialization) (strategy : C → Outcome D)
    (async_write : Response D → WriteStart) where
  unfoldable pub on_session_event :
      ℕ → SessionEvent C → Server C D → Option (Session C D) → Outcome (Server C D)
  on_session_event i e v none = returns v
  on_session_event i e v (some s) = do
    t ← handle_event strategy async_write s e
    returns (record v { sessions = put_session i t v.sessions })

  -- One turn of `io_service::run`.
  unfoldable pub serve : Server C D → ServerEvent C → Outcome (Server C D)
  unfolding on_session_event
  serve v (accepted ec) = on_accepted initialize ec v
  serve v (session_event i e) = on_session_event i e v (find_session i v.sessions)

  unfoldable pub run : Server C D → List (ServerEvent C) → Outcome (Server C D)
  run v [] = returns v
  run v (e ∷ es) = do v' ← serve v e; run v' es
