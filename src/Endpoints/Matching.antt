-- ===== src/Endpoints/Matching.antt =====
-- What the two ends of a connection make of their settings.
use tcpclient_server.Prelude.{Bool, ◌≡◌, refl, sym, ap, ◌∙◌, none, Bytes}
use mathlib.Core.Path.{subst}
use tcpclient_server.Errors.{Outcome, returns, throws, ◌>>=◌, success}
use tcpclient_server.Filter.{Zlib}
use tcpclient_server.Ssl.{
  OpenSsl, context_calls, SslMode, off, sslv23, sslv3, invalid, SslOptions, Method, method_of,
}
use tcpclient_server.Ssl.Setup.{IsLoadable, IsEnabled, method_of-returns, get_ssl_context-method}
use tcpclient_server.Io.{
  Io, unsecured, ssl, Side, client, server, called, handshaking, Initialization, create_by,
}
use tcpclient_server.Io
use tcpclient_server.SslIo.{SslIo, new_ssl_io, setup_socket}
use tcpclient_server.Connection.{Connection}
use tcpclient_server.Endpoints.{client_connection, server_connection, async_initialize}

-- Both ends speak plainly, and the server's initialization waits for nothing; or both speak SSL
-- with one method, and the server waits for the handshake that a client makes when it connects.
abbrev pub SameIo : Io → Io → Type 0
SameIo unsecured unsecured = Unit
SameIo (ssl a) (ssl b) = a.context.method ≡ b.context.method
SameIo _ _ = ⊥

abbrev pub Initializes : Io → Outcome Initialization → Type 0
Initializes unsecured r = r ≡ returns (called success)
Initializes (ssl io) r = r ≡ returns (handshaking server)

-- The ends of two constructors' results: both throw the same, or they fit together.
abbrev pub Matches : {S : Type 0} → Outcome (Connection S) → Outcome (Connection S) → Type 0
Matches (returns c) (returns s) =
    (c.filter ≡ s.filter) × SameIo c.io s.io × Initializes s.io (async_initialize s)
Matches (throws e) (throws e') = e ≡ e'
Matches _ _ = ⊥

new_ssl_io-method :
    (openssl : OpenSsl) (o : SslOptions) (s : Side) (m : Method)
    → IsLoadable openssl o
    → method_of o.mode ≡ returns m
    → (io : SslIo) × (new_ssl_io openssl o s ≡ returns io) × (io.context.method ≡ m)
unfolding new_ssl_io setup_socket
new_ssl_io-method openssl o client m l e = (
  setup_socket client (record {
    context = record { method = m; calls = context_calls openssl.single_dh_use o };
    options = o;
    verify_mode = none;
    verify_callback = none;
  }),
  rw (get_ssl_context-method openssl o m l e) refl,
  refl,
)
new_ssl_io-method openssl o server m l e = (
  setup_socket server (record {
    context = record { method = m; calls = context_calls openssl.single_dh_use o };
    options = o;
    verify_mode = none;
    verify_callback = none;
  }),
  rw (get_ssl_context-method openssl o m l e) refl,
  refl,
)

-- With an SSL mode both factories make an SSL strategy, with one method.
create_by-ssl :
    (mode : SslMode) (openssl : OpenSsl) (o : SslOptions) (s : Side)
    → IsEnabled mode
    → create_by mode openssl o s ≡ (new_ssl_io openssl o s >>= λ io. returns (ssl io))
unfolding create_by
create_by-ssl sslv23 openssl o s h = refl
create_by-ssl sslv3 openssl o s h = refl
create_by-ssl off openssl o s h = absurd h
create_by-ssl (invalid n) openssl o s h = absurd h

module _ {S : Type 0} (zlib : Zlib) (openssl theirs : OpenSsl) (socket : S) (header : Bytes)
    (compression : Bool) where
  ssl-Matches :
      (oc os : SslOptions)
      → IsLoadable openssl oc
      → IsLoadable theirs os
      → IsEnabled oc.mode
      → oc.mode ≡ os.mode
      → Matches
          (client_connection zlib openssl socket header oc compression)
          (server_connection zlib theirs socket header os compression)
  unfolding client_connection server_connection Io.create async_initialize Io.async_initialize
  ssl-Matches oc os lc ls h e =
      let (m, em) = method_of-returns oc.mode h in
      let (a, ma, fa) = new_ssl_io-method openssl oc client m lc em in
      let (b, mb, fb) = new_ssl_io-method theirs os server m ls (ap method_of (sym e) ∙ em) in
      let made_c = create_by-ssl oc.mode openssl oc client h in
      let made_s = create_by-ssl os.mode theirs os server (subst IsEnabled e h) in
      rw (made_c, made_s, ma, mb) (refl, fa ∙ sym fb, refl)

  -- Two ends with the same mode and the same choice of compression fit together, if OpenSSL refuses
  -- no call on their contexts, so that the files which their options name can be loaded, and
  -- whatever else their options say: they use the same filter; and either both speak plainly and
  -- the server is initialized at once, or both speak SSL by the same method and the server's
  -- initialization waits for a handshake; or neither is made, and both constructors throw the same
  -- exception.
  pub connections-Matches :
      (oc os : SslOptions)
      → IsLoadable openssl oc
      → IsLoadable theirs os
      → oc.mode ≡ os.mode
      → Matches
          (client_connection zlib openssl socket header oc compression)
          (server_connection zlib theirs socket header os compression)
  unfolding client_connection server_connection Io.create create_by async_initialize
      Io.async_initialize
  connections-Matches oc os lc ls e = by_mode oc.mode refl
    where
      by_mode :
          (mode : SslMode)
          → oc.mode ≡ mode
          → Matches
              (client_connection zlib openssl socket header oc compression)
              (server_connection zlib theirs socket header os compression)
      by_mode off ec = rw (ec, sym e ∙ ec) (refl, tt, refl)
      by_mode (invalid n) ec = rw (ec, sym e ∙ ec) refl
      by_mode sslv23 ec = ssl-Matches oc os lc ls (subst IsEnabled (sym ec) tt) e
      by_mode sslv3 ec = ssl-Matches oc os lc ls (subst IsEnabled (sym ec) tt) e
