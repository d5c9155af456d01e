-- ===== src/Programs/Settings.antt =====
-- The settings of the two programs against one another.
use Prim.Native.Nat.{bit_and, bit_or}
use tcpclient_server.Prelude.{
  ◌≡◌, refl, sym, ◌∙◌, List, [], ◌∷◌, ◌++◌, Bytes, codes, some, none, Option, false, ◌==◌,
}
use tcpclient_server.Errors.{Exception, returns}
use tcpclient_server.Filter.{Zlib, compression_filter}
use tcpclient_server.Filter
use tcpclient_server.Ssl.{
  ContextCall, set_options, load_verify_file, set_password_callback, use_certificate_chain_file,
  use_private_key_file, use_tmp_dh_file, method_sslv23, OpenSsl, context_calls,
}
use tcpclient_server.Ssl.Setup.{IsLoadable, get_ssl_context-sslv23}
use tcpclient_server.Io.{ssl, client, server}
use tcpclient_server.Io
use tcpclient_server.SslIo.{SslIo, ssl_verify_callback, new_ssl_io, setup_socket}
use tcpclient_server.Endpoints.{client_connection, server_connection, new_connection}
use tcpclient_server.Programs.{
  SslConstants, client_options, server_options, client_compression, server_compression,
}

-- `single_dh_use` is a bit of its own: the client's options do not have it, and the server's do.
pub record IsConstants (k : SslConstants) : Type 0 where
  pub client_without : bit_and k.default_workarounds k.single_dh_use ≡ 0
  pub server_with :
      (bit_and (bit_or (bit_or k.default_workarounds k.no_sslv2) k.single_dh_use) k.single_dh_use
        == 0)
      ≡ false

abbrev pub ssl_file : Bytes → Bytes → Bytes
ssl_file install_dir name = (install_dir ++ (b'/' ∷ codes "ssl")) ++ (b'/' ∷ name)

-- What the calculator's client is made of.
pub record IsClientIo (k : SslConstants) (install_dir : Bytes) (io : SslIo) : Type 0 where
  pub method : io.context.method ≡ method_sslv23
  pub verifies : io.verify_mode ≡ some k.verify_peer
  pub asks : io.verify_callback ≡ some ssl_verify_callback
  pub calls :
      io.context.calls
      ≡ set_options k.default_workarounds
        ∷ load_verify_file (ssl_file install_dir (codes "ca_cert.pem"))
        ∷ []

-- What the calculator's server is made of.
abbrev pub server_calls : SslConstants → Bytes → List ContextCall
server_calls k install_dir =
    set_options (bit_or (bit_or k.default_workarounds k.no_sslv2) k.single_dh_use)
    ∷ load_verify_file (ssl_file install_dir (codes "ca_cert.pem"))
    ∷ set_password_callback
    ∷ use_certificate_chain_file (ssl_file install_dir (codes "ca_cert.pem"))
    ∷ use_private_key_file (ssl_file install_dir (codes "ssl_priv.pem"))
    ∷ use_tmp_dh_file (ssl_file install_dir (codes "dh1024.pem"))
    ∷ []

pub record IsServerIo (k : SslConstants) (install_dir : Bytes) (io : SslIo) : Type 0 where
  pub method : io.context.method ≡ method_sslv23
  pub verifies : io.verify_mode ≡ none
  pub asks : io.verify_callback ≡ none
  pub calls : io.context.calls ≡ server_calls k install_dir

-- OpenSSL with these constants. It refuses these calls.
abbrev pub openssl_of : SslConstants → (ContextCall → Option Exception) → OpenSsl
openssl_of k refuses = record { single_dh_use = k.single_dh_use; refuses = refuses }

module _ (k : SslConstants) (law : IsConstants k) (install_dir : Bytes)
    (refuses : ContextCall → Option Exception) where
  client_io :
      IsLoadable (openssl_of k refuses) (client_options k install_dir)
      → (io : SslIo) × (new_ssl_io (openssl_of k refuses) (client_options k install_dir) client
          ≡ returns io)
        × IsClientIo k install_dir io
  unfolding new_ssl_io setup_socket client_options context_calls
  client_io loadable = (
    record {
      context = record {
        method = method_sslv23;
        calls = context_calls k.single_dh_use (client_options k install_dir);
      };
      options = client_options k install_dir;
      verify_mode = some k.verify_peer;
      verify_callback = some ssl_verify_callback;
    },
    rw (get_ssl_context-sslv23 (openssl_of k refuses) (client_options k install_dir) loadable refl)
        refl,
    record { method = refl; verifies = refl; asks = refl; calls = rw law.client_without refl },
  )

  server_io :
      IsLoadable (openssl_of k refuses) (server_options k install_dir)
      → (io : SslIo) × (new_ssl_io (openssl_of k refuses) (server_options k install_dir) server
          ≡ returns io)
        × IsServerIo k install_dir io
  unfolding new_ssl_io setup_socket server_options context_calls
  server_io loadable = (
    record {
      context = record {
        method = method_sslv23;
        calls = context_calls k.single_dh_use (server_options k install_dir);
      };
      options = server_options k install_dir;
      verify_mode = none;
      verify_callback = none;
    },
    rw (get_ssl_context-sslv23 (openssl_of k refuses) (server_options k install_dir) loadable refl)
        refl,
    record { method = refl; verifies = refl; asks = refl; calls = rw law.server_with refl },
  )

  -- If its files can be loaded, the client has its connection, with the compressing filter.
  pub client_made :
      {S : Type 0} (zlib : Zlib) (socket : S) (header : Bytes)
      → IsLoadable (openssl_of k refuses) (client_options k install_dir)
      → (a : SslIo) × (client_connection zlib
            (openssl_of k refuses)
            socket
            header
            (client_options k install_dir)
            client_compression
          ≡ returns (new_connection socket header (ssl a) (compression_filter zlib)))
        × IsClientIo k install_dir a
  unfolding client_connection Io.create Io.create_by Filter.create client_options client_compression
  client_made zlib socket header loadable =
      let (a, made, is_client) = client_io loadable in (a, rw made refl, is_client)

  server_made :
      {S : Type 0} (zlib : Zlib) (socket : S) (header : Bytes)
      → IsLoadable (openssl_of k refuses) (server_options k install_dir)
      → (b : SslIo) × (server_connection zlib
            (openssl_of k refuses)
            socket
            header
            (server_options k install_dir)
            server_compression
          ≡ returns (new_connection socket header (ssl b) (compression_filter zlib)))
        × IsServerIo k install_dir b
  unfolding server_connection Io.create Io.create_by Filter.create server_options server_compression
  server_made zlib socket header loadable =
      let (b, made, is_server) = server_io loadable in (b, rw made refl, is_server)

-- What both programs make of their settings, if the constants are what OpenSSL documents, and if
-- it refuses no call on the context of either, so that all files can be loaded: an SSL connection
-- each, by the same method; and each program's own choice of compression gives the compressing
-- filter. The client trusts the certificate file, verifies its peer and asks its callback, and has
-- no key; the server has that certificate for its chain, its own key with the password callback,
-- and the parameters of the key exchange; and it neither verifies its peer nor asks a callback.
pub programs_agree :
    {S : Type 0} (k : SslConstants) (law : IsConstants k) (install_dir : Bytes)
    (refuses refuses' : ContextCall → Option Exception) (zlib : Zlib) (socket : S) (header : Bytes)
    → IsLoadable (openssl_of k refuses) (client_options k install_dir)
    → IsLoadable (openssl_of k refuses') (server_options k install_dir)
    → (a b : SslIo) × (client_connection zlib
          (openssl_of k refuses)
          socket
          header
          (client_options k install_dir)
          client_compression
        ≡ returns (new_connection socket header (ssl a) (compression_filter zlib)))
      × (server_connection zlib
            (openssl_of k refuses')
            socket
            header
            (server_options k install_dir)
            server_compression
          ≡ returns (new_connection socket header (ssl b) (compression_filter zlib)))
      × IsClientIo k install_dir a
      × IsServerIo k install_dir b
      × (a.context.method ≡ b.context.method)
programs_agree k law install_dir refuses refuses' zlib socket header client_loads server_loads =
    let (a, ea, ha) = client_made k law install_dir refuses zlib socket header client_loads in
    let (b, eb, hb) = server_made k law install_dir refuses' zlib socket header server_loads in
    (a, b, ea, eb, ha, hb, ha.method ∙ sym hb.method)
