-- ===== src/Endpoints.antt =====
-- ClientServerFramework/Shared/Connection/ClientConnection.hpp and ServerConnection.hpp: the two
-- ends of a connection. A constructor makes the strategies of its side; the socket is fresh, and
-- the array for a header holds what it happens to hold.
pub mod Matching
pub mod Tests
use tcpclient_server.Prelude.{ℕ, Bool, List, [], Bytes}
use tcpclient_server.Errors.{Outcome, returns, ◌>>=◌}
use tcpclient_server.Filter.{Zlib, Filter}
use tcpclient_server.Filter
use tcpclient_server.Ssl.{OpenSsl, SslOptions}
use tcpclient_server.Io.{Io, Side, client, server, Asio, Connected, Initialization, Operation}
use tcpclient_server.Io
use tcpclient_server.Connection.{Connection}

-- The constructor of `Connection_base`.
unfoldable pub new_connection : {S : Type 0} → S → Bytes → Io → Filter → Connection S
new_connection socket header io filter = record {
  io = io;
  filter = filter;
  socket = socket;
  outbound_header = [];
  outbound_data = [];
  inbound_header = header;
  inbound_data = [];
}

module _ {S : Type 0} (zlib : Zlib) (openssl : OpenSsl) (socket : S) (header : Bytes) where
  unfoldable pub client_connection : SslOptions → Bool → Outcome (Connection S)
  unfolding new_connection
  client_connection o compression = do
    io ← Io.create openssl o client
    returns (new_connection socket header io (Filter.create zlib compression))

  unfoldable pub server_connection : SslOptions → Bool → Outcome (Connection S)
  unfolding new_connection
  server_connection o compression = do
    io ← Io.create openssl o server
    returns (new_connection socket header io (Filter.create zlib compression))

module _ {S : Type 0} (asio : Asio S) where
  -- `ClientConnection::connect`.
  unfoldable pub connect : Connection S → List ℕ → Outcome (Connected S)
  connect c begin = Io.connect asio c.io begin client c.socket

-- `ServerConnection::async_initialize`.
unfoldable pub async_initialize : {S : Type 0} → Connection S → Outcome Initialization
async_initialize c = Io.async_initialize c.io

-- `ServerConnection::async_accept`.
unfoldable pub async_accept : {S : Type 0} → Connection S → Operation
async_accept c = Io.async_accept c.io
