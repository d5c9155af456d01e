-- ===== src/Ssl/Tests.antt =====
-- The options of the calculator's server.
use tcpclient_server.Prelude.{none, ◌≡◌, refl, [], ◌∷◌, codes}
use tcpclient_server.Errors.{returns}
use tcpclient_server.Ssl.{
  OpenSsl, sslv23, SslOptions, method_sslv23, set_options, load_verify_file,
  use_certificate_chain_file, use_private_key_file, use_tmp_dh_file, set_password_callback, Context,
  get_ssl_context, get_method, get_full_pathname, method_of,
}
use tcpclient_server.Ssl.Setup.{IsEnabled, AllProper, get_ssl_context_sound}

abbrev pub server_options : SslOptions
server_options = record {
  mode = sslv23;
  context_options = 0x100000;
  verify_mode = 1;
  certificate_path = codes "/opt/ssl";
  certificate_filename = codes "ca_cert.pem";
  private_key_filename = codes "ssl_priv.pem";
  password = codes "password";
  dh_filename = codes "dh1024.pem";
}

-- Every file can be loaded.
abbrev pub willing : OpenSsl
willing = record { single_dh_use = 0x100000; refuses = λ c. none }

abbrev server_context : Context
server_context = record {
  method = method_sslv23;
  calls =
      set_options 0x100000
      ∷ load_verify_file (codes "/opt/ssl/ca_cert.pem")
      ∷ set_password_callback
      ∷ use_certificate_chain_file (codes "/opt/ssl/ca_cert.pem")
      ∷ use_private_key_file (codes "/opt/ssl/ssl_priv.pem")
      ∷ use_tmp_dh_file (codes "/opt/ssl/dh1024.pem")
      ∷ [];
}

server_context_lem : get_ssl_context willing server_options ≡ returns server_context
unfolding get_ssl_context get_method method_of get_full_pathname
server_context_lem = refl

get_ssl_context_sound_example :
    IsEnabled server_options.mode × AllProper server_options server_context.calls
get_ssl_context_sound_example =
    get_ssl_context_sound willing server_options server_context server_context_lem
