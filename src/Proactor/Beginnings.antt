-- ===== src/Proactor/Beginnings.antt =====
-- The beginnings of a session, which are the constructor of its connection and the initialization
-- of an accepted client; and the constructor of the server.
use tcpclient_server.Prelude.{ℕ, ◌≡◌, refl, Bool, Bytes, Option, []}
use tcpclient_server.Response.{Response}
use tcpclient_server.Proactor.{Host, open_acceptor, accept_next, new_host}
use mathlib.Core.Path.{subst}
use tcpclient_server.Errors.{
  ErrorCode, success, Outcome, returns, >>=-eq-returns, returns-injective,
}
use tcpclient_server.Filter.{Zlib}
use tcpclient_server.Filter
use tcpclient_server.Ssl.{OpenSsl, SslMode, off, sslv23, sslv3, invalid, SslOptions}
use tcpclient_server.Io.{Asio, Io, unsecured, ssl, server, Initialization, called, handshaking}
use tcpclient_server.Io
use tcpclient_server.SslIo.{new_ssl_io}
use tcpclient_server.Connection.{Archive, Connection}
use tcpclient_server.Endpoints.{async_initialize, server_connection}
use tcpclient_server.Session.{Session, do_initialize}

module _ {C D : Type 0} where
  do_initialize_io :
      (io : Io) (s : Session C D)
      → (s' : Session C D) × (do_initialize (Io.async_initialize io) s ≡ returns s')
  unfolding do_initialize Io.async_initialize
  do_initialize_io unsecured s = (_, refl)
  do_initialize_io (ssl io) s = (_, refl)

module _ {S C D : Type 0} where
  -- Neither mode fails at once.
  pub do_initialize-returns :
      (c : Connection S) (s : Session C D)
      → (s' : Session C D) × (do_initialize (async_initialize c) s ≡ returns s')
  unfolding async_initialize
  do_initialize-returns c s = do_initialize_io c.io s

-- How the sessions of a server begin in each mode.
abbrev pub beginning : SslMode → Outcome Initialization
beginning off = returns (called success)
beginning _ = returns (handshaking server)

abbrev Begins : SslMode → Io → Type 0
Begins m io = Io.async_initialize io ≡ beginning m

create_by-beginning :
    (m : SslMode) (openssl : OpenSsl) (o : SslOptions) (io : Io)
    → Io.create_by m openssl o server ≡ returns io
    → Begins m io
unfolding Io.create_by Io.async_initialize
create_by-beginning off k o io h =
    let same : unsecured ≡ io = returns-injective h in subst (Begins off) same refl
create_by-beginning sslv23 k o io h =
    let (i, made, same) = >>=-eq-returns (new_ssl_io k o server) _ h in
    subst (Begins sslv23) (returns-injective same) refl
create_by-beginning sslv3 k o io h =
    let (i, made, same) = >>=-eq-returns (new_ssl_io k o server) _ h in
    subst (Begins sslv3) (returns-injective same) refl
create_by-beginning (invalid n) k o io h = cc

module _ {S : Type 0} (zlib : Zlib) (openssl : OpenSsl) (o : SslOptions) (compression : Bool) where
  -- Every connection that the constructor makes has the filter and the way to begin of the options.
  pub server_connection-beginning :
      (socket : S) (header : Bytes) (c : Connection S)
      → server_connection zlib openssl socket header o compression ≡ returns c
      → (c.filter ≡ Filter.create zlib compression) × (async_initialize c ≡ beginning o.mode)
  unfolding server_connection async_initialize Io.create
  server_connection-beginning socket header c h =
      let (io, made, same) = >>=-eq-returns (Io.create openssl o server) _ h in
      subst
        (λ k. (k.filter ≡ Filter.create zlib compression) × (async_initialize k ≡ beginning o.mode))
        (returns-injective same) (refl, create_by-beginning o.mode openssl o io made)

module _ {S C D : Type 0} (asio : Asio S) (requests : Archive C) (responses : Archive (Response D))
    (strategy : C → Outcome D) (make : ℕ → Outcome (Connection S)) (unset : C) where
  -- A server that is constructed has its acceptor, and waits for its first client.
  pub new_host-accept_next :
      (listening : Option ErrorCode) (h : Host S C D)
      → new_host asio requests responses strategy make unset listening ≡ returns h
      → accept_next asio requests responses strategy make unset 0 [] ≡ returns h
  unfolding new_host
  new_host-accept_next listening h k =
      let (bound, opened, fresh) = >>=-eq-returns (open_acceptor listening) _ k in fresh
