-- ===== src/UnsecuredIo.antt =====
-- ClientServerFramework/Shared/IO/UnsecuredIO.hpp: the strategy for a socket without SSL.
use tcpclient_server.Prelude.{ℕ, List, Bytes}
use tcpclient_server.Errors.{success, Outcome, returns, throws, logic_error}
use tcpclient_server.Socket.{
  Side, Written, Received, Connected, Handshaken, Asio, Initialization, Operation, accepting,
  reading, sending, called,
}

-- Server initialization does nothing but call the handler without an error.
unfoldable pub async_initialize : Outcome Initialization
async_initialize = returns (called success)

-- The two handshakes should never be called.
unfoldable pub async_handshake : Side → Outcome Initialization
async_handshake s = throws (logic_error "Bad Call.")

unfoldable pub async_accept : Operation
async_accept = accepting

unfoldable pub async_write_impl : List Bytes → Operation
async_write_impl buffers = sending buffers

-- Both overloads: the operation is given the size of the header's array or of the data's vector.
unfoldable pub async_read_impl : ℕ → Operation
async_read_impl size = reading size

module _ {S : Type 0} (asio : Asio S) where
  unfoldable pub handshake : Side → S → Outcome (Handshaken S)
  handshake s socket = throws (logic_error "Bad call.")

  unfoldable pub connect : List ℕ → Side → S → Outcome (Connected S)
  connect begin s socket = returns (asio.connect begin socket)

  unfoldable pub write_impl : List Bytes → S → Written S
  write_impl buffers socket = asio.write buffers socket

  -- Both overloads: the header's array and the data's vector are filled in the same way.
  unfoldable pub read_impl : ℕ → S → Received S
  read_impl size socket = asio.read size socket
