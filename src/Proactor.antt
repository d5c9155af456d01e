-- ===== src/Proactor.antt =====
-- The server down to its transfers: the event loop of ClientServerFramework/Server/AsyncServer.hpp,
-- where each session of Server/Session.hpp has a connection of its own, and one message takes two
-- transfers of Shared/Connection/Connection_base.hpp, between which the handlers of other sessions
-- run. What the operating system completes is an event. `make` is the constructor of the connection
-- of a session, and `unset` what its `cdata_` holds before the first message.
pub mod Peers
pub mod Table
pub mod Simulation
pub mod Faults
pub mod Outages
pub mod Beginnings
pub mod Stops
pub mod Buffers
pub mod Shaking
pub mod Pending
pub mod Numbered
pub mod Isolation
pub mod Transfers
pub mod Exchange
pub mod Tests
use tcpclient_server.Prelude.{
  ℕ, suc, ◌+◌, List, [], ◌∷◌, Bytes, Option, none, some, length, drop, ◌==◌, if◌then◌else◌,
}
use tcpclient_server.Errors.{
  ErrorCode, is_error, Outcome, returns, throws, undefined, ◌>>=◌, system_error,
}
use tcpclient_server.Header.{header_length}
use tcpclient_server.Response.{Response}
use tcpclient_server.Io.{
  Asio, Initialization, handshaking, Operation, shaking, async_read_impl, async_write_impl,
}
use tcpclient_server.Connection.{
  Archive, Connection, WriteStart, HeaderStep, reported, reading_data, overwrite, async_write,
  handle_read_header, handle_read_data,
}
use tcpclient_server.Endpoints.{async_initialize, async_accept}
use tcpclient_server.Session.{
  SessionPoint, created, initializing, replying, receiving, closed, SessionEvent, initialized,
  received, delivered, Session, new_session, do_initialize, handle_event,
}

-- A session with its connection and its `cdata_`. `inbound` is `none` while a header is read, and
-- then the size of the data and the number of bytes read before.
pub record Peer (S C D : Type 0) : Type 0 where
  pub session : Session C D
  pub connection : Connection S
  pub cdata : C
  pub inbound : Option (ℕ × ℕ)

-- How an operation of a session completes: with a code, and for a read with the bytes that have
-- come into the buffer.
pub data Completion : Type 0 where
  shaken : ErrorCode → Completion
  arrived : ErrorCode → Bytes → Completion
  written : ErrorCode → ℕ → Completion

-- The constructor of the acceptor opens it, binds it to the port and listens. `some ec`: one of
-- these calls fails with this code.
unfoldable pub open_acceptor : Option ErrorCode → Outcome {0} Unit
open_acceptor none = returns tt
open_acceptor (some ec) = throws (system_error ec)

-- `waiting` is the session whose connection waits for a client.
pub record Host (S C D : Type 0) : Type 0 where
  pub count : ℕ
  pub waiting : Peer S C D
  pub peers : List (Peer S C D)

pub data HostEvent : Type 0 where
  client_accepted : ErrorCode → HostEvent
  completed : ℕ → Completion → HostEvent

-- The handshake that the initialization of the connection leaves pending.
shaking_of : Outcome Initialization → Option Operation
shaking_of (returns (handshaking side)) = some (shaking side)
shaking_of _ = none

-- The operation that is pending, and keeps the session alive. `none`: nothing does.
unfoldable pub operation_at :
    {S : Type 0} → SessionPoint → Option (ℕ × ℕ) → Connection S → Option Operation
unfolding shaking_of
operation_at created inbound c = some (async_accept c)
operation_at initializing inbound c = shaking_of (async_initialize c)
operation_at (receiving first) none c = some (async_read_impl c.io header_length)
operation_at (receiving first) (some (size, len)) c = some (async_read_impl c.io size)
operation_at replying inbound c =
    some (async_write_impl c.io (c.outbound_header ∷ c.outbound_data ∷ []))
operation_at closed inbound c = none

module _ {S C D : Type 0} where
  unfoldable pub operation : Peer S C D → Option Operation
  unfolding operation_at
  operation p = operation_at p.session.point p.inbound p.connection

  unfoldable pub find_peer : ℕ → List (Peer S C D) → Option (Peer S C D)
  find_peer i [] = none
  find_peer i (p ∷ ps) = if p.session.session_id == i then some p else find_peer i ps

  unfoldable pub put_peer : ℕ → Peer S C D → List (Peer S C D) → List (Peer S C D)
  put_peer i q [] = []
  put_peer i q (p ∷ ps) = if p.session.session_id == i then q ∷ ps else p ∷ put_peer i q ps

module _ {S C D : Type 0} (asio : Asio S) (requests : Archive C) (responses : Archive (Response D))
    (strategy : C → Outcome D) where
  -- How `async_write` of the session's connection starts.
  abbrev pub start : Connection S → Response D → WriteStart
  start c r = (async_write asio responses c r).1

  -- The connection, once `async_write` has been called for the replies that are new.
  unfoldable pub outbound : Connection S → List (Response D) → Connection S
  outbound c [] = c
  outbound c (r ∷ rs) = (async_write asio responses c r).0

  -- The session's handler runs, and starts its next operation.
  unfoldable pub notify : Peer S C D → SessionEvent C → Outcome (Peer S C D)
  unfolding outbound
  notify p e = do
    s ← handle_event strategy (start p.connection) p.session e
    returns (record p {
      session = s;
      connection = outbound p.connection (drop (length p.session.replies) s.replies);
      inbound = none;
    })

  -- Behind `handle_read_header`: the session's handler is called, or the data is read next.
  unfoldable pub after_header : Peer S C D → Outcome HeaderStep → Outcome (Peer S C D)
  unfolding notify
  after_header p (throws x) = throws x
  after_header p undefined = undefined
  after_header p (returns (reported ec len)) = notify p (received ec len p.cdata)
  after_header p (returns (reading_data size len)) =
      returns (record p { inbound = some (size, len) })

  -- A transfer into the array of the header has completed.
  unfoldable pub header_arrived : Peer S C D → ErrorCode → Bytes → Outcome (Peer S C D)
  unfolding after_header
  header_arrived p ec bytes =
      let c = record p.connection {
        inbound_header = overwrite bytes p.connection.inbound_header;
      } in
      let (c', step) = handle_read_header asio requests c ec (length bytes) in
      after_header (record p { connection = c' }) step

  -- A transfer into the vector of the data has completed.
  unfoldable pub data_arrived : Peer S C D → ℕ → ErrorCode → Bytes → Outcome (Peer S C D)
  unfolding notify
  data_arrived p len ec bytes =
      let c = record p.connection { inbound_data = overwrite bytes p.connection.inbound_data } in
      let r = handle_read_data asio requests c p.cdata ec (len + length bytes) in
      do
        (ec', n) ← r.report
        notify (record p { connection = r.connection; cdata = r.value }) (received ec' n r.value)

  unfoldable pub bytes_arrived :
      Peer S C D → Option (ℕ × ℕ) → ErrorCode → Bytes → Outcome (Peer S C D)
  unfolding header_arrived data_arrived
  bytes_arrived p none ec bytes = header_arrived p ec bytes
  bytes_arrived p (some (size, len)) ec bytes = data_arrived p len ec bytes

  -- The completion of the operation that is pending. No other one can occur.
  unfoldable pub complete_at : SessionPoint → Peer S C D → Completion → Outcome (Peer S C D)
  unfolding bytes_arrived notify
  complete_at initializing p (shaken ec) = notify p (initialized ec)
  complete_at (receiving first) p (arrived ec bytes) = bytes_arrived p p.inbound ec bytes
  complete_at replying p (written ec n) = notify p (delivered ec n)
  complete_at _ p _ = returns p

  unfoldable pub complete : Peer S C D → Completion → Outcome (Peer S C D)
  unfolding complete_at
  complete p e = complete_at p.session.point p e

  unfoldable pub on_completed :
      ℕ → Completion → Host S C D → Option (Peer S C D) → Outcome (Host S C D)
  unfolding complete put_peer
  on_completed i e h none = returns h
  on_completed i e h (some p) = do
    q ← complete p e
    returns (record h { peers = put_peer i q h.peers })

  module _ (make : ℕ → Outcome (Connection S)) (unset : C) where
    -- `do_accept`: the constructor of the session makes its connection, and takes a number.
    unfoldable pub accept_next : ℕ → List (Peer S C D) → Outcome (Host S C D)
    accept_next count peers = do
      c ← make count
      returns (record {
        count = suc count;
        waiting = record {
          session = new_session count;
          connection = c;
          cdata = unset;
          inbound = none;
        };
        peers = peers;
      })

    -- The constructor of the server: the acceptor first, and then `do_accept`.
    unfoldable pub new_host : Option ErrorCode → Outcome (Host S C D)
    unfolding accept_next open_acceptor
    new_host listening = do bound ← open_acceptor listening; accept_next 0 []

    -- The handler of `async_accept`.
    unfoldable pub on_client : ErrorCode → Host S C D → Outcome (Host S C D)
    unfolding accept_next
    on_client ec h = if is_error ec then accept_next h.count h.peers else do
      s ← do_initialize (async_initialize h.waiting.connection) h.waiting.session
      accept_next h.count (record h.waiting { session = s } ∷ h.peers)

    -- One turn of `io_service::run`.
    unfoldable pub turn : Host S C D → HostEvent → Outcome (Host S C D)
    unfolding on_client on_completed find_peer
    turn h (client_accepted ec) = on_client ec h
    turn h (completed i e) = on_completed i e h (find_peer i h.peers)

    unfoldable pub turns : Host S C D → List HostEvent → Outcome (Host S C D)
    turns h [] = returns h
    turns h (e ∷ es) = do h' ← turn h e; turns h' es

    -- The whole run of the server, from its constructor on.
    unfoldable pub host_run : Option ErrorCode → List HostEvent → Outcome (Host S C D)
    unfolding new_host turns
    host_run listening es = do h ← new_host listening; turns h es
