-- ===== src/Socket.antt =====
-- What the strategies of ClientServerFramework/Shared/IO call on a socket: the enumeration of
-- IO_base.hpp, and boost::asio's operations, which are a parameter. `S` is the state of a socket.
use tcpclient_server.Prelude.{ℕ, List, Bytes, Option}
use tcpclient_server.Errors.{ErrorCode}

pub data Side : Type 0 where
  client server : Side

-- What a transfer leaves behind: the socket, the code, and the number of bytes.
pub record Written (S : Type 0) : Type 0 where
  pub socket : S
  pub ec : ErrorCode
  pub length : ℕ

pub record Received (S : Type 0) : Type 0 where
  pub socket : S
  pub ec : ErrorCode
  pub bytes : Bytes

-- `none` is the end iterator.
pub record Connected (S : Type 0) : Type 0 where
  pub socket : S
  pub ec : ErrorCode
  pub endpoint : Option ℕ

pub record Handshaken (S : Type 0) : Type 0 where
  pub socket : S
  pub ec : ErrorCode

-- `boost::asio::write` of all the buffers, `boost::asio::read` of a number of bytes,
-- `boost::asio::connect` to the first end-point that answers, and the SSL handshake.
pub record Asio (S : Type 0) : Type 0 where
  pub write : List Bytes → S → Written S
  pub read : ℕ → S → Received S
  pub connect : List ℕ → S → Connected S
  pub handshake : Side → S → Handshaken S

-- What `async_initialize` does: it calls the handler at once, or leaves a handshake pending, which
-- calls the handler with its code.
pub data Initialization : Type 0 where
  called : ErrorCode → Initialization
  handshaking : Side → Initialization

-- An operation that a strategy leaves to the operating system, with the buffers of a write and the
-- size of the buffer of a read.
pub data Operation : Type 0 where
  accepting : Operation
  shaking : Side → Operation
  reading : ℕ → Operation
  sending : List Bytes → Operation
