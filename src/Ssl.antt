-- ===== src/Ssl.antt =====
-- ClientServerFramework/Shared/IO/SSL.hpp: the SSL options and the context that they determine. The
-- context is the list of the calls made on it; what OpenSSL does with them is a parameter.
pub mod Setup
pub mod Tests
use Prim.Native.Nat.{bit_and}
use Prim.Native.String.{String}
use tcpclient_server.Prelude.{
  ℕ, Bool, true, false, List, [], ◌∷◌, ◌++◌, Bytes, length, leb, ◌==◌, not, if◌then◌else◌, Option,
  none, some,
}
use tcpclient_server.Errors.{Exception, Outcome, returns, throws, ◌>>=◌, runtime_error}

-- `enum ssl_mode`; `invalid` is a value of the enumeration's type that is none of its enumerators.
pub data SslMode : Type 0 where
  off sslv23 sslv3 : SslMode
  invalid : ℕ → SslMode

pub record SslOptions : Type 0 where
  pub mode : SslMode
  pub context_options : ℕ
  pub verify_mode : ℕ
  pub certificate_path : Bytes
  pub certificate_filename : Bytes
  pub private_key_filename : Bytes
  pub password : Bytes
  pub dh_filename : Bytes

pub data Method : Type 0 where
  method_sslv23 method_sslv3 : Method

pub data ContextCall : Type 0 where
  set_options : ℕ → ContextCall
  load_verify_file use_certificate_chain_file use_private_key_file use_tmp_dh_file :
      Bytes → ContextCall
  set_password_callback : ContextCall

pub record Context : Type 0 where
  pub method : Method
  pub calls : List ContextCall

-- What OpenSSL and Boost decide: the constant `single_dh_use` of `boost::asio::ssl::context`, and
-- what a call on a context throws, if it does, as where a file is missing or is not what it is
-- taken for.
pub record OpenSsl : Type 0 where
  pub single_dh_use : ℕ
  pub refuses : ContextCall → Option Exception

-- `get_method`.
pub method_of : SslMode → Outcome Method
method_of off = throws (runtime_error "SSL is disabled.")
method_of sslv23 = returns method_sslv23
method_of sslv3 = returns method_sslv3
method_of (invalid n) = throws (runtime_error "Invalid SSL mode.")

pub get_method : SslOptions → Outcome Method
unfolding method_of
get_method o = method_of o.mode

pub get_full_pathname : SslOptions → Bytes → Bytes
get_full_pathname o filename = o.certificate_path ++ (b'/' ∷ filename)

-- The password callback of the context.
pub get_password : SslOptions → ℕ → Outcome Bytes
get_password o max_size =
    if leb (length o.password) max_size
    then returns o.password
    else throws (runtime_error "Password too long.")

abbrev is_empty : Bytes → Bool
is_empty [] = true
is_empty (c ∷ s) = false

verify_calls : SslOptions → List ContextCall
verify_calls o =
    if is_empty o.certificate_filename
    then []
    else load_verify_file (get_full_pathname o o.certificate_filename) ∷ []

key_calls : SslOptions → List ContextCall
key_calls o =
    if is_empty o.private_key_filename
    then []
    else set_password_callback
      ∷ use_certificate_chain_file (get_full_pathname o o.certificate_filename)
      ∷ use_private_key_file (get_full_pathname o o.private_key_filename)
      ∷ []

dh_calls : ℕ → SslOptions → List ContextCall
dh_calls single_dh_use o =
    if bit_and o.context_options single_dh_use == 0
    then []
    else use_tmp_dh_file (get_full_pathname o o.dh_filename) ∷ []

-- The calls that the options ask for, in their order.
unfoldable pub context_calls : ℕ → SslOptions → List ContextCall
unfolding verify_calls key_calls dh_calls get_full_pathname
context_calls single_dh_use o =
    set_options o.context_options ∷ (verify_calls o ++ (key_calls o ++ dh_calls single_dh_use o))

-- The calls are made one after the other, up to the first that throws.
unfoldable pub run_calls : (ContextCall → Option Exception) → List ContextCall → Outcome {0} Unit
run_calls refuses [] = returns tt
run_calls refuses (c ∷ cs) = elim (refuses c) [ none ↦ run_calls refuses cs | some e ↦ throws e ]

unfoldable pub get_ssl_context : OpenSsl → SslOptions → Outcome Context
unfolding get_method context_calls run_calls
get_ssl_context openssl o = do
  method ← get_method o
  done ← run_calls openssl.refuses (context_calls openssl.single_dh_use o)
  returns (record { method = method; calls = context_calls openssl.single_dh_use o })
