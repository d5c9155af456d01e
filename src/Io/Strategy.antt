-- ===== src/Io/Strategy.antt =====
-- Which strategy the factory makes, and how the two differ.
use tcpclient_server.Prelude.{ℕ, ◌≡◌, refl, ◌⊎◌, inl, inr, List, none, some, arith, true, false}
use tcpclient_server.Errors.{is_error, ◌>>=◌, Outcome, returns, throws, runtime_error, thrown_code}
use tcpclient_server.Ssl.{OpenSsl, SslMode, off, sslv23, sslv3, invalid, SslOptions}
use tcpclient_server.Ssl.Setup.{IsLoadable, IsEnabled, get_ssl_context-returns}
use tcpclient_server.Io.{Side, client, server, Asio, Io, unsecured, ssl, create_by, create, connect}
use tcpclient_server.SslIo.{SslIo, ssl_verify_callback, new_ssl_io, setup_socket}

-- What the factory is to make of the options for a side.
abbrev pub Creates : SslMode → SslOptions → Side → Outcome Io → Type 0
Creates off o s r = r ≡ returns unsecured
Creates (invalid n) o s r = r ≡ throws (runtime_error "Invalid SSL mode.")
Creates _ o s r =
    (io : SslIo) × (r ≡ returns (ssl io))
    × (io.options ≡ o)
    × (((s ≡ client) × (io.verify_mode ≡ some o.verify_mode))
        ⊎ ((s ≡ server) × (io.verify_mode ≡ none)))

new_ssl_io-verify :
    (openssl : OpenSsl) (o : SslOptions) (s : Side)
    → IsLoadable openssl o
    → IsEnabled o.mode
    → (io : SslIo) × ((new_ssl_io openssl o s >>= λ io'. returns (ssl io')) ≡ returns (ssl io))
      × (io.options ≡ o)
      × (((s ≡ client) × (io.verify_mode ≡ some o.verify_mode))
          ⊎ ((s ≡ server) × (io.verify_mode ≡ none)))
unfolding new_ssl_io setup_socket
new_ssl_io-verify openssl o client l h =
    let (c, e) = get_ssl_context-returns openssl o l h in
    (
      record {
        context = c;
        options = o;
        verify_mode = some o.verify_mode;
        verify_callback = some ssl_verify_callback;
      },
      rw e,
      refl,
      inl (refl, refl),
    )
new_ssl_io-verify openssl o server l h =
    let (c, e) = get_ssl_context-returns openssl o l h in
    (
      record { context = c; options = o; verify_mode = none; verify_callback = none },
      rw e,
      refl,
      inr (refl, refl),
    )

create_by-Creates :
    (m : SslMode) (openssl : OpenSsl) (o : SslOptions) (s : Side)
    → IsLoadable openssl o
    → o.mode ≡ m
    → Creates m o s (create_by m openssl o s)
unfolding create_by
create_by-Creates off openssl o s l e = refl
create_by-Creates sslv23 openssl o s l e = new_ssl_io-verify openssl o s l (rw e tt)
create_by-Creates sslv3 openssl o s l e = new_ssl_io-verify openssl o s l (rw e tt)
create_by-Creates (invalid n) openssl o s l e = refl

-- For every mode: the plain strategy without SSL, an SSL strategy that verifies its peer on the
-- client's side only with either SSL mode, and an exception for any other value, if the files that
-- the options name can be loaded.
pub create-Creates :
    (openssl : OpenSsl) (o : SslOptions) (s : Side)
    → IsLoadable openssl o
    → Creates o.mode o s (create openssl o s)
unfolding create
create-Creates openssl o s l = create_by-Creates o.mode openssl o s l refl

module _ {S : Type 0} (asio : Asio S) where
  -- A connection attempt through SSL never returns a code of the handshake: it returns what the
  -- socket's own attempt returned if that failed, throws the handshake's code if the handshake
  -- failed, and otherwise returns the end-point without an error.
  pub connect_ssl :
      (io : SslIo) (begin : List ℕ) (s : Side) (socket : S)
      → let opened = asio.connect begin socket in
        let done = asio.handshake s opened.socket in
        ((is_error opened.ec ≡ true) × (connect asio (ssl io) begin s socket ≡ returns opened))
        ⊎ ((is_error opened.ec ≡ false)
            × (is_error done.ec ≡ true)
            × (connect asio (ssl io) begin s socket ≡ throws (thrown_code done.ec)))
        ⊎ ((is_error opened.ec ≡ false)
            × (is_error done.ec ≡ false)
            × (connect asio (ssl io) begin s socket
                ≡ returns
                    (record { socket = done.socket; ec = done.ec; endpoint = opened.endpoint })))
  unfolding connect
  connect_ssl io begin client socket = ground arith
  connect_ssl io begin server socket = ground arith
