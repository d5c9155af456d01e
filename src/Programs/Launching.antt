-- ===== src/Programs/Launching.antt =====
-- The client's program, from its arguments to `listen`.
use tcpclient_server.Prelude.{
  ℕ, Bool, Option, List, [], ◌∷◌, ◌≡◌, refl, ◌⊎◌, inl, inr, Bytes, Bool-cases,
}
use mathlib.Core.Path.{subst}
use tcpclient_server.Errors.{ErrorCode, Exception, Outcome, returns, throws}
use tcpclient_server.Ssl.{ContextCall, context_calls, get_ssl_context}
use tcpclient_server.Ssl.Setup.{IsRefused, get_ssl_context-sslv23-cases}
use tcpclient_server.Connection.{Connection}
use tcpclient_server.Io
use tcpclient_server.Filter.{Zlib}
use tcpclient_server.SslIo.{SslIo, new_ssl_io}
use tcpclient_server.Io.{Asio, ssl}
use tcpclient_server.Endpoints.{new_connection, client_connection}
use tcpclient_server.Client.{start_client}
use tcpclient_server.Client.Connector.{IsConnect, Opens}
use tcpclient_server.Client.Creation.{
  Client, new_connector, new_client, start, start-Opens, IsResolver,
}
use tcpclient_server.Programs.{
  SslConstants, ClientArgs, Launch, goes_on, client_options, client_compression, client_launch,
  client_args, choose_input,
}
use tcpclient_server.Programs.Settings.{openssl_of, IsConstants, IsClientIo, client_made}

module _ (k : SslConstants) (install_dir : Bytes) (opens : Bytes → Bool) where
  abbrev AllSet : Launch ClientArgs → Type 0
  AllSet (goes_on (returns a)) =
      (a.options ≡ client_options k install_dir) × (a.compression ≡ client_compression)
  AllSet _ = Unit

  client_args-AllSet :
      (client_id host service f : Bytes)
      → AllSet (goes_on (client_args k install_dir client_id host service (choose_input opens f)))
  unfolding client_args choose_input
  client_args-AllSet client_id host service [] = (refl, refl)
  client_args-AllSet client_id host service (c ∷ s) = elim (Bool-cases (opens (c ∷ s))) [
    | inl e ↦ rw e (refl, refl)
    | inr e ↦ rw e tt
  ]

  client_launch-AllSet : (argv : List Bytes) → AllSet (client_launch k install_dir opens argv)
  unfolding client_launch
  client_launch-AllSet [] = tt
  client_launch-AllSet (p ∷ []) = tt
  client_launch-AllSet (p ∷ i ∷ []) = tt
  client_launch-AllSet (p ∷ i ∷ h ∷ []) = tt
  client_launch-AllSet (p ∷ i ∷ h ∷ s ∷ []) = client_args-AllSet i h s []
  client_launch-AllSet (p ∷ i ∷ h ∷ s ∷ f ∷ []) = client_args-AllSet i h s f
  client_launch-AllSet (p ∷ i ∷ h ∷ s ∷ f ∷ x ∷ xs) = tt

module _ {S I D R : Type 0} (zlib : Zlib) (k : SslConstants) (install_dir : Bytes)
    (refuses : ContextCall → Option Exception) (opens : Bytes → Bool) (socket : S)
    (header : Bytes) where
  -- `client_type::create` with the arguments, and the input that they choose.
  pub create : ClientArgs → I → Outcome (Client S I D R)
  create a is =
      new_client zlib (openssl_of k refuses) socket header a.options a.compression a.host a.service
        is a.keep_alive

  create-throws :
      (a : ClientArgs) (is : I) (e : Exception)
      → a.options ≡ client_options k install_dir
      → get_ssl_context (openssl_of k refuses) (client_options k install_dir) ≡ throws e
      → create a is ≡ throws e
  unfolding create new_client new_connector client_connection Io.create Io.create_by new_ssl_io
      client_options
  create-throws a is e options thrown = rw (options, thrown) refl

  create-returns :
      (a : ClientArgs) (is : I) (connection : Connection S)
      → a.options ≡ client_options k install_dir
      → a.compression ≡ client_compression
      → client_connection zlib
          (openssl_of k refuses)
          socket
          header
          (client_options k install_dir)
          client_compression
        ≡ returns connection
      → create a is
        ≡ returns (record {
          connector = record { connection = connection; host = a.host; service = a.service };
          system = start_client is a.keep_alive;
        })
  unfolding create new_client new_connector
  create-returns a is connection options compression made = rw (options, compression, made) refl

  -- The client that is created: it has an SSL connection by the settings of the program, and the
  -- first round of its loop brings it to `listen`, or ends it with the code of the failure.
  abbrev pub ClientBegins :
      Asio S → (Bytes → Bytes → ErrorCode ⊎ List ℕ) → ClientArgs → I → Client S I D R → Type 0
  ClientBegins asio resolve a is c =
      (io : SslIo) × (c.connector.connection.io ≡ ssl io)
      × IsClientIo k install_dir io
      × (c.system ≡ start_client is a.keep_alive)
      × Opens (start asio resolve c).system.client

  -- The client's program with arguments that it accepts, if the constants are what OpenSSL
  -- documents, and if resolving and connecting report their failures as errors. Either OpenSSL
  -- refuses one of the calls that set up the context, as where the certificate is missing, and the
  -- creation of the client throws the exception of that call. Or the client is created, with an SSL
  -- connection by the settings of the program; and the first round of its loop brings it to
  -- `listen`, or ends it with the code of the failure.
  pub launched-Opens :
      (asio : Asio S) (resolve : Bytes → Bytes → ErrorCode ⊎ List ℕ) (argv : List Bytes)
      (a : ClientArgs) (is : I)
      → IsConstants k
      → IsConnect asio
      → IsResolver resolve
      → client_launch k install_dir opens argv ≡ goes_on (returns a)
      → ((e : Exception) × IsRefused refuses
            (context_calls k.single_dh_use (client_options k install_dir))
            e
          × (create a is ≡ throws e))
        ⊎ ((c : Client S I D R) × (create a is ≡ returns c) × ClientBegins asio resolve a is c)
  unfolding new_connection client_options
  launched-Opens asio resolve argv a is constants law resolver launched =
      let (options, compression) =
        subst (AllSet k install_dir opens) launched
          (client_launch-AllSet k install_dir opens argv) in
      let o = client_options k install_dir in
      elim (get_ssl_context-sslv23-cases (openssl_of k refuses) o refl) [
        | inr (e, why, thrown) ↦ inl (e, why, create-throws a is e options thrown)
        | inl loadable ↦
            let (io, made, is_client) =
              client_made k constants install_dir refuses zlib socket header loadable in
            inr (
              _,
              create-returns a is _ options compression made,
              (io, refl, is_client, refl, start-Opens asio resolve _ law resolver),
            )
      ]
