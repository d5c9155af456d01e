-- ===== src/Programs.antt =====
-- The main programs of the calculator: ClientServerCalculator/TCPClient/Calculator-TCPClient.cpp
-- and TCPServer/Calculator-TCPServer.cpp, with their settings. `argv` begins with the program's
-- name. The constants of boost::asio::ssl and the installation directory of the build are
-- parameters.
pub mod Settings
pub mod Ports
pub mod Exits
pub mod Outages
pub mod Launching
pub mod Serving
pub mod Tests
use Prim.Native.Nat.{bit_or}
use tcpclient_server.Prelude.{
  ℕ, ◌%◌, ◌^◌, Bool, true, false, List, [], ◌∷◌, ◌++◌, Bytes, codes, Option, none, some,
  if◌then◌else◌,
}
use tcpclient_server.Errors.{Outcome, returns, throws, ◌>>=◌, Exception, runtime_error}
use tcpclient_server.Ssl.{SslOptions, sslv23}
use tcpclient_server.Atoi.{atoi}
use tcpclient_server.Client.{ClientPoint, done, failed}

pub record SslConstants : Type 0 where
  pub default_workarounds : ℕ
  pub no_sslv2 : ℕ
  pub single_dh_use : ℕ
  pub verify_peer : ℕ

abbrev ssl_path : Bytes → Bytes
ssl_path install_dir = install_dir ++ (b'/' ∷ codes "ssl")

-- The settings of the client. The fields that the initialization leaves out are empty.
unfoldable pub client_options : SslConstants → Bytes → SslOptions
client_options k install_dir = record {
  mode = sslv23;
  context_options = k.default_workarounds;
  verify_mode = k.verify_peer;
  certificate_path = ssl_path install_dir;
  certificate_filename = codes "ca_cert.pem";
  private_key_filename = [];
  password = [];
  dh_filename = [];
}

-- The settings of the server.
unfoldable pub server_options : SslConstants → Bytes → SslOptions
server_options k install_dir = record {
  mode = sslv23;
  context_options = bit_or (bit_or k.default_workarounds k.no_sslv2) k.single_dh_use;
  verify_mode = k.verify_peer;
  certificate_path = ssl_path install_dir;
  certificate_filename = codes "ca_cert.pem";
  private_key_filename = codes "ssl_priv.pem";
  password = codes "password";
  dh_filename = codes "dh1024.pem";
}

-- `use_compression` of the client's program.
unfoldable pub client_compression : Bool
client_compression = true

-- `use_compression` of the server's program.
unfoldable pub server_compression : Bool
server_compression = true

pub data Input : Type 0 where
  standard_input : Input
  input_file : Bytes → Input

-- The arguments of `client_type::create`.
pub record ClientArgs : Type 0 where
  pub options : SslOptions
  pub compression : Bool
  pub client_id : Bytes
  pub host : Bytes
  pub service : Bytes
  pub input : Input
  pub keep_alive : Bool

-- What a program does with its arguments: it prints its usage and exits, or goes on with the next
-- stage.
pub data Launch (A : Type 0) : Type 0 where
  usage : Launch A
  goes_on : Outcome A → Launch A

pub data Exit : Type 0 where
  exit_success exit_failure : Exit

-- The input stream and `keep_alive`. `opens` says which files can be opened for reading.
choose_input : (Bytes → Bool) → Bytes → Outcome (Input × Bool)
choose_input opens [] = returns (standard_input, true)
choose_input opens (c ∷ s) =
    if opens (c ∷ s)
    then returns (input_file (c ∷ s), false)
    else throws (runtime_error "Unable to open input file.")

module _ (k : SslConstants) (install_dir : Bytes) where
  client_args : Bytes → Bytes → Bytes → Outcome (Input × Bool) → Outcome ClientArgs
  client_args client_id host service chosen = do
    (input, keep_alive) ← chosen
    returns (record {
      options = client_options k install_dir;
      compression = client_compression;
      client_id = client_id;
      host = host;
      service = service;
      input = input;
      keep_alive = keep_alive;
    })

  -- `main` of the client, up to `start`.
  unfoldable pub client_launch : (Bytes → Bool) → List Bytes → Launch ClientArgs
  unfolding client_args choose_input
  client_launch opens (program ∷ client_id ∷ host ∷ service ∷ []) =
      goes_on (client_args client_id host service (choose_input opens []))
  client_launch opens (program ∷ client_id ∷ host ∷ service ∷ filename ∷ []) =
      goes_on (client_args client_id host service (choose_input opens filename))
  client_launch opens _ = usage

-- How `main` of the client ends, once `start` has come to a program point: both handlers of
-- exceptions exit with a failure. `none` means that it has not ended.
pub client_exit : {D : Type 0} → ClientPoint D → Option Exit
client_exit done = some exit_success
client_exit (failed e) = some exit_failure
client_exit _ = none

-- How either `main` ends before that.
pub launch_exit : {A : Type 0} → Launch A → Option Exit
launch_exit usage = some exit_failure
launch_exit (goes_on (throws e)) = some exit_failure
launch_exit (goes_on _) = none

-- The arguments of the constructor of the server.
pub record ServerArgs : Type 0 where
  pub port : ℕ
  pub options : SslOptions
  pub compression : Bool

-- `short port = std::atoi(argv[1])`, and the conversion of that `short` to the unsigned port of an
-- end-point in AsyncServer.hpp: both keep the lowest 16 bits.
unfoldable pub listen_port : Bytes → Outcome ℕ
listen_port s = do n ← atoi s; returns (n % 2 ^ 16)

-- `main` of the server, up to the construction of the server.
pub server_launch : SslConstants → Bytes → List Bytes → Launch ServerArgs
unfolding listen_port
server_launch k install_dir (program ∷ port ∷ []) = goes_on (do
  n ← listen_port port
  returns (record {
    port = n;
    options = server_options k install_dir;
    compression = server_compression;
  }))
server_launch k install_dir _ = usage

-- How `main` of the server ends, once its event loop has come to an outcome. While the loop runs,
-- the acceptor always has a next client to wait for, so it does not return.
unfoldable pub server_exit : {A : Type 0} → Outcome A → Option Exit
server_exit (throws e) = some exit_failure
server_exit _ = none
