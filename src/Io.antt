-- ===== src/Io.antt =====
-- ClientServerFramework/Shared/IO/IO_base.hpp and IO_base_factory.hpp: the interface of the socket
-- strategies, and the factory. A member function is dispatched virtually, so a strategy is a data
-- type with a constructor for each class.
pub mod Strategy
pub mod Tests
use tcpclient_server.Prelude.{ℕ, List, Bytes}
use tcpclient_server.Errors.{Outcome, returns, throws, ◌>>=◌, runtime_error}
use tcpclient_server.Ssl.{OpenSsl, SslMode, off, sslv23, sslv3, invalid, SslOptions}
use tcpclient_server.SslIo
use tcpclient_server.SslIo.{SslIo, new_ssl_io}
use tcpclient_server.UnsecuredIo
pub use tcpclient_server.Socket.{
  Side, client, server, Written, Received, Connected, Handshaken, Asio, Initialization, called,
  handshaking, Operation, accepting, shaking, reading, sending,
}

pub data Io : Type 0 where
  unsecured : Io
  ssl : SslIo → Io

-- `IO_base_factory::create`.
unfoldable pub create_by : SslMode → OpenSsl → SslOptions → Side → Outcome Io
create_by off openssl o s = returns unsecured
create_by sslv23 openssl o s = do io ← new_ssl_io openssl o s; returns (ssl io)
create_by sslv3 openssl o s = do io ← new_ssl_io openssl o s; returns (ssl io)
create_by (invalid n) openssl o s = throws (runtime_error "Invalid SSL mode.")

unfoldable pub create : OpenSsl → SslOptions → Side → Outcome Io
unfolding create_by
create openssl o s = create_by o.mode openssl o s

unfoldable pub async_initialize : Io → Outcome Initialization
unfolding UnsecuredIo.async_initialize SslIo.async_initialize
async_initialize unsecured = UnsecuredIo.async_initialize
async_initialize (ssl io) = SslIo.async_initialize

unfoldable pub async_handshake : Io → Side → Outcome Initialization
unfolding UnsecuredIo.async_handshake SslIo.async_handshake
async_handshake unsecured s = UnsecuredIo.async_handshake s
async_handshake (ssl io) s = SslIo.async_handshake s

unfoldable pub async_accept : Io → Operation
unfolding UnsecuredIo.async_accept SslIo.async_accept
async_accept unsecured = UnsecuredIo.async_accept
async_accept (ssl io) = SslIo.async_accept

unfoldable pub async_write_impl : Io → List Bytes → Operation
unfolding UnsecuredIo.async_write_impl SslIo.async_write_impl
async_write_impl unsecured buffers = UnsecuredIo.async_write_impl buffers
async_write_impl (ssl io) buffers = SslIo.async_write_impl buffers

unfoldable pub async_read_impl : Io → ℕ → Operation
unfolding UnsecuredIo.async_read_impl SslIo.async_read_impl
async_read_impl unsecured size = UnsecuredIo.async_read_impl size
async_read_impl (ssl io) size = SslIo.async_read_impl size

module _ {S : Type 0} (asio : Asio S) where
  unfoldable pub handshake : Io → Side → S → Outcome (Handshaken S)
  unfolding UnsecuredIo.handshake SslIo.handshake
  handshake unsecured s socket = UnsecuredIo.handshake asio s socket
  handshake (ssl io) s socket = SslIo.handshake asio s socket

  unfoldable pub connect : Io → List ℕ → Side → S → Outcome (Connected S)
  unfolding UnsecuredIo.connect SslIo.connect
  connect unsecured begin s socket = UnsecuredIo.connect asio begin s socket
  connect (ssl io) begin s socket = SslIo.connect asio begin s socket

  unfoldable pub write_impl : Io → List Bytes → S → Written S
  unfolding UnsecuredIo.write_impl SslIo.write_impl
  write_impl unsecured buffers socket = UnsecuredIo.write_impl asio buffers socket
  write_impl (ssl io) buffers socket = SslIo.write_impl asio buffers socket

  unfoldable pub read_impl : Io → ℕ → S → Received S
  unfolding UnsecuredIo.read_impl SslIo.read_impl
  read_impl unsecured size socket = UnsecuredIo.read_impl asio size socket
  read_impl (ssl io) size socket = SslIo.read_impl asio size socket
