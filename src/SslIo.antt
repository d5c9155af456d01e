-- ===== src/SslIo.antt =====
-- ClientServerFramework/Shared/IO/SSL_IO.hpp: the strategy for a socket with SSL.
use tcpclient_server.Prelude.{
  ℕ, Bool, List, [], ◌∷◌, ◌++◌, codes, Bytes, Option, none, some, if◌then◌else◌,
}
use tcpclient_server.Errors.{is_error, Outcome, returns, throws, ◌>>=◌, thrown_code}
use tcpclient_server.Ssl.{OpenSsl, SslOptions, Context, get_ssl_context}
use tcpclient_server.Socket.{
  Side, client, server, Written, Received, Connected, Handshaken, Asio, Initialization, Operation,
  accepting, reading, sending, handshaking,
}

-- What a verify callback does with a verdict of OpenSSL on a certificate and with the name of its
-- subject, of which it gets 255 characters: what it prints, and its own verdict.
abbrev pub VerifyCallback : Type 0
VerifyCallback = Bool → Bytes → Bytes × Bool

abbrev pub ssl_verify_callback : VerifyCallback
ssl_verify_callback preverified subject_name =
    (codes "Verifying certificate authority: " ++ (subject_name ++ (10 ∷ [])), preverified)

-- The parts of `SSL_IO`: its context, its options, and the verify mode and callback of the socket
-- once they are set.
pub record SslIo : Type 0 where
  pub context : Context
  pub options : SslOptions
  pub verify_mode : Option ℕ
  pub verify_callback : Option VerifyCallback

-- `get_handshake_type`: the side's own handshake.
unfoldable pub get_handshake_type : Side → Side
get_handshake_type client = client
get_handshake_type server = server

-- The verify mode and callback are set on the client's side only.
unfoldable pub setup_socket : Side → SslIo → SslIo
setup_socket client io = record io {
  verify_mode = some io.options.verify_mode;
  verify_callback = some ssl_verify_callback;
}
setup_socket server io = io

-- The constructor.
unfoldable pub new_ssl_io : OpenSsl → SslOptions → Side → Outcome SslIo
unfolding setup_socket
new_ssl_io openssl o s = do
  context ← get_ssl_context openssl o
  returns (
      setup_socket s
        (record { context = context; options = o; verify_mode = none; verify_callback = none }))

unfoldable pub async_handshake : Side → Outcome Initialization
unfolding get_handshake_type
async_handshake s = returns (handshaking (get_handshake_type s))

-- Server initialization starts with the handshake.
unfoldable pub async_initialize : Outcome Initialization
unfolding async_handshake
async_initialize = async_handshake server

unfoldable pub async_accept : Operation
async_accept = accepting

unfoldable pub async_write_impl : List Bytes → Operation
async_write_impl buffers = sending buffers

-- Both overloads: the operation is given the size of the header's array or of the data's vector.
unfoldable pub async_read_impl : ℕ → Operation
async_read_impl size = reading size

module _ {S : Type 0} (asio : Asio S) where
  -- The blocking handshake.
  unfoldable pub handshake : Side → S → Outcome (Handshaken S)
  unfolding get_handshake_type
  handshake s socket = returns (asio.handshake (get_handshake_type s) socket)

  unfoldable pub after_handshake : Option ℕ → Handshaken S → Outcome (Connected S)
  after_handshake endpoint h =
      if is_error h.ec
      then throws (thrown_code h.ec)
      else returns (record { socket = h.socket; ec = h.ec; endpoint = endpoint })

  -- The handshake is made right after the connection is opened.
  unfoldable pub connect : List ℕ → Side → S → Outcome (Connected S)
  unfolding after_handshake handshake
  connect begin s socket =
      let opened = asio.connect begin socket in
      if is_error opened.ec
      then returns opened
      else (handshake s opened.socket >>= after_handshake opened.endpoint)

  unfoldable pub write_impl : List Bytes → S → Written S
  write_impl buffers socket = asio.write buffers socket

  -- Both overloads: the header's array and the data's vector are filled in the same way.
  unfoldable pub read_impl : ℕ → S → Received S
  read_impl size socket = asio.read size socket
