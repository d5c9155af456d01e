-- ===== src/Conversation.antt =====
-- The whole way of a request, in ClientServerFramework: `Connector::send` of Client/Connector.hpp
-- on the client, and on the server the handlers of Server/Session.hpp over
-- Shared/Connection/Connection_base.hpp, with the completions of its transfers. One network carries
-- both directions in turn.
pub mod Turn
pub mod Answers
pub mod Tests
use tcpclient_server.Prelude.{Bool, List, [], ◌∷◌, Bytes}
use tcpclient_server.Errors.{ErrorCode, success, Outcome, returns, ◌>>=◌}
use tcpclient_server.Response.{Response}
use tcpclient_server.Io.{Asio, write_impl}
use tcpclient_server.Connection.{
  Archive, Connection, write, read, async_read, async_write, WriteStart, called, writing,
}
use tcpclient_server.Session.{Session, SessionPoint, replying, received, delivered, handle_event}

-- Both ends and what is on the way between them. A connection's own socket is replaced by the
-- network whenever it transfers.
pub record World (S C D : Type 0) : Type 0 where
  pub net : S
  pub client : Connection S
  pub server : Connection S
  pub session : Session C D

module _ {S C D : Type 0} (asio : Asio S) (requests : Archive C) (responses : Archive (Response D))
    (strategy : C → Outcome D) where
  -- How the session's write starts on its connection.
  abbrev pub starts : Connection S → Response D → WriteStart
  starts c r = (async_write asio responses c r).1

  -- The completion of a write that is pending.
  pub send_out : Connection S → Session C D → WriteStart → Outcome (Connection S × Session C D)
  send_out c s (called ec n) = returns (c, s)
  send_out c s (writing buffers) =
      let w = write_impl asio c.io buffers c.socket in
      do
        s' ← handle_event strategy (starts c) s (delivered w.ec w.length)
        returns (record c { socket = w.socket }, s')

  -- The write of the last reply, where the session is replying.
  pub deliver :
      Connection S
      → Session C D
      → SessionPoint
      → List (Response D)
      → Outcome (Connection S × Session C D)
  unfolding send_out
  deliver c s replying (r ∷ []) =
      let (c', start) = async_write asio responses c r in send_out c' s start
  deliver c s replying (r ∷ r' ∷ rs) = deliver c s replying (r' ∷ rs)
  deliver c s _ _ = returns (c, s)

  -- The server's part: its pending read completes, and then the write that the handler has started.
  -- `old` is the request before it is read.
  pub serve_one : Connection S → Session C D → C → Outcome (Connection S × Session C D)
  unfolding deliver
  serve_one c s old =
      let a = async_read asio requests c old in
      do
        (ec, len) ← a.report
        s' ← handle_event strategy (starts a.connection) s (received ec len a.value)
        deliver a.connection s' s'.point s'.replies

  -- The client's `send`, with the server's part between its write and its read.
  pub exchange : World S C D → C → C → Response D → Outcome (World S C D × ErrorCode × Response D)
  unfolding serve_one
  exchange w d old unset =
      let sent = write asio requests (record w.client { socket = w.net }) d success in
      do
        (server, session) ←
            serve_one (record w.server { socket = sent.connection.socket }) w.session old
        let r = read asio responses (record sent.connection { socket = server.socket }) unset
        returns (
          record {
            net = r.connection.socket;
            client = r.connection;
            server = server;
            session = session;
          },
          r.ec,
          r.value,
        )

  pub conversation :
      World S C D → List C → C → Response D → Outcome (World S C D × List (ErrorCode × Response D))
  unfolding exchange
  conversation w [] old unset = returns (w, [])
  conversation w (d ∷ ds) old unset = do
    (w', ec, r) ← exchange w d old unset
    (w'', rs) ← conversation w' ds old unset
    returns (w'', (ec, r) ∷ rs)
