-- ===== src/Client/Creation.antt =====
-- The constructors of ClientServerFramework/Client/Connector.hpp and Client.hpp, and `open` with
-- the resolution of its query, which is left to `resolve`: the end-points, or the code that it
-- throws.
use tcpclient_server.Prelude.{◌≡◌, refl, true, ℕ, Bool, ◌⊎◌, inl, inr, List, Bytes}
use tcpclient_server.Errors.{is_error, ErrorCode, system_error, Outcome, returns, ◌>>=◌}
use tcpclient_server.Filter.{Zlib}
use tcpclient_server.Ssl.{OpenSsl, SslOptions}
use tcpclient_server.Io.{Asio}
use tcpclient_server.Connection.{Connection}
use tcpclient_server.Endpoints.{client_connection}
use tcpclient_server.Client.{Opening, open_threw, System, start_client, open_connection}
use tcpclient_server.Client.Connector.{IsConnect, Opens, open_to, open_to-Opens}

-- `host` and `service` are the query.
pub record Connector (S : Type 0) : Type 0 where
  pub connection : Connection S
  pub host : Bytes
  pub service : Bytes

-- A client with its connector.
pub record Client (S I D R : Type 0) : Type 0 where
  pub connector : Connector S
  pub system : System I D R

module _ {S : Type 0} (zlib : Zlib) (openssl : OpenSsl) (socket : S) (header : Bytes) where
  -- The constructor of `Connector`.
  unfoldable pub new_connector : SslOptions → Bool → Bytes → Bytes → Outcome (Connector S)
  new_connector o compression host service = do
    c ← client_connection zlib openssl socket header o compression
    returns (record { connection = c; host = host; service = service })

  -- The constructor of `Client`.
  unfoldable pub new_client :
      {I D R : Type 0} → SslOptions → Bool → Bytes → Bytes → I → Bool → Outcome (Client S I D R)
  unfolding new_connector
  new_client o compression host service is keep_alive = do
    connector ← new_connector o compression host service
    returns (record { connector = connector; system = start_client is keep_alive })

module _ {S : Type 0} (asio : Asio S) (resolve : Bytes → Bytes → ErrorCode ⊎ List ℕ) where
  open_resolved : Connector S → ErrorCode ⊎ List ℕ → Connector S × Opening
  open_resolved c (inl ec) = (c, open_threw (system_error ec))
  open_resolved c (inr endpoints) =
      let (connection, opening) = open_to asio c.connection endpoints in
      (record c { connection = connection }, opening)

  -- `open`.
  unfoldable pub open_query : Connector S → Connector S × Opening
  unfolding open_resolved
  open_query c = open_resolved c (resolve c.host c.service)

  -- The first round of the loop in `start`, up to the call of `listen`.
  unfoldable pub start : {I D R : Type 0} → Client S I D R → Client S I D R
  unfolding open_query
  start k =
      let (connector, opening) = open_query k.connector in
      record { connector = connector; system = open_connection k.system opening }

-- The resolver throws errors only.
pub record IsResolver (resolve : Bytes → Bytes → ErrorCode ⊎ List ℕ) : Type 0 where
  pub failure :
      (host service : Bytes) (ec : ErrorCode) → resolve host service ≡ inl ec → is_error ec ≡ true

module _ {S I D R : Type 0} (asio : Asio S) (resolve : Bytes → Bytes → ErrorCode ⊎ List ℕ) where
  open_resolved-Opens :
      (c : Connector S) (s : System I D R) (o : ErrorCode ⊎ List ℕ)
      → IsConnect asio
      → ((ec : ErrorCode) → o ≡ inl ec → is_error ec ≡ true)
      → Opens (open_connection s (open_resolved asio resolve c o).1).client
  unfolding open_resolved
  open_resolved-Opens c s (inl ec) law failure = unfold open_connection in failure ec refl
  open_resolved-Opens c s (inr endpoints) law failure =
      open_to-Opens asio s c.connection endpoints law

  -- The first round of the loop brings the client to `listen`, or ends it with the code of the
  -- failure.
  pub start-Opens :
      (k : Client S I D R)
      → IsConnect asio
      → IsResolver resolve
      → Opens (start asio resolve k).system.client
  unfolding start open_query
  start-Opens k law resolver =
      let c = k.connector in
      open_resolved-Opens c k.system (resolve c.host c.service) law
        (λ ec e. resolver.failure c.host c.service ec e)
