-- ===== src/Programs/Tests.antt =====
-- Arguments of the two programs.
use tcpclient_server.Prelude.{
  Option, inr, ◌%◌, ◌≤◌, ◌<◌, ◌^◌, ◌≡◌, ◌≢◌, List, ℕ, refl, ◌⊎◌, true, [], ◌∷◌, codes, none, some,
  Bytes,
}
use tcpclient_server.Errors.{
  Exception, Outcome, throws, ErrorCode, success, returns, undefined, std_exception,
}
use tcpclient_server.Response.{Response}
use tcpclient_server.Connection.{Archive}
use tcpclient_server.Calculator.{ClientData, ServerData}
use tcpclient_server.DataScraper.Tests.{blank_request}
use tcpclient_server.Io
use tcpclient_server.Io.Tests.{loopback}
use tcpclient_server.Ssl.{ContextCall, context_calls}
use tcpclient_server.Ssl.Setup.{IsRefused}
use tcpclient_server.Proactor.{shaken, arrived, HostEvent, client_accepted, completed}
use tcpclient_server.Filter.{compression_filter}
use tcpclient_server.Filter
use tcpclient_server.Filter.Tests.{marking}
use tcpclient_server.SslIo.{SslIo}
use tcpclient_server.Io.{ssl, handshaking, server}
use tcpclient_server.Client.Tests.{loopback-IsConnect, one_number, answered, answered-Reach}
use tcpclient_server.Endpoints.{client_connection, server_connection, new_connection}
use tcpclient_server.Atoi.Digits.{value}
use tcpclient_server.Programs.{
  SslConstants, standard_input, ClientArgs, exit_success, client_launch, client_exit,
  client_options, server_options, client_compression, server_compression, listen_port,
}
use tcpclient_server.Programs.Ports.{listen_port_bounds}
use tcpclient_server.Client.Creation.{Client, IsResolver}
use tcpclient_server.Programs.Launching.{create, ClientBegins, launched-Opens}
use tcpclient_server.Programs.Exits.{standard_input_never_succeeds}
use tcpclient_server.Programs.Settings.{
  openssl_of, IsConstants, IsClientIo, IsServerIo, programs_agree,
}

listen_port_bounds_example :
    ((value (codes "70000") < 2 ^ 16)
      × (listen_port (codes "70000") ≡ returns (value (codes "70000"))))
    ⊎ ((2 ^ 16 ≤ value (codes "70000"))
        × (value (codes "70000") < 2 ^ 31)
        × (listen_port (codes "70000") ≡ returns (value (codes "70000") % 2 ^ 16)))
    ⊎ ((2 ^ 31 ≤ value (codes "70000")) × (listen_port (codes "70000") ≡ undefined))
listen_port_bounds_example =
    listen_port_bounds (codes "70000") (refl, (refl, (refl, (refl, (refl, tt)))))

abbrev constants : SslConstants
constants = record {
  default_workarounds = 0x0fff;
  no_sslv2 = 0x1000000;
  single_dh_use = 0x100000;
  verify_peer = 1;
}

constants-IsConstants : IsConstants constants
constants-IsConstants = record { client_without = refl; server_with = refl }

abbrev args : ClientArgs
args = record {
  options = client_options constants (codes "/opt");
  compression = client_compression;
  client_id = codes "James";
  host = codes "localhost";
  service = codes "8000";
  input = standard_input;
  keep_alive = true;
}

standard_input_never_succeeds_example : client_exit answered.client ≢ some exit_success
unfolding client_launch
standard_input_never_succeeds_example =
    standard_input_never_succeeds constants (codes "/opt") (λ f. true) one_number
      (codes "client" ∷ codes "James" ∷ codes "localhost" ∷ codes "8000" ∷ []) args 3 answered refl
      refl answered-Reach

-- Every file can be loaded.
abbrev willing : ContextCall → Option Exception
willing c = none

programs_agree_example :
    (a b : SslIo) × (client_connection {S = Bytes} marking
        (openssl_of constants willing)
        []
        (codes "????????")
        (client_options constants (codes "/opt"))
        client_compression
      ≡ returns (new_connection [] (codes "????????") (ssl a) (compression_filter marking)))
    × (server_connection {S = Bytes} marking
          (openssl_of constants willing)
          []
          (codes "????????")
          (server_options constants (codes "/opt"))
          server_compression
        ≡ returns (new_connection [] (codes "????????") (ssl b) (compression_filter marking)))
    × IsClientIo constants (codes "/opt") a
    × IsServerIo constants (codes "/opt") b
    × (a.context.method ≡ b.context.method)
unfolding context_calls client_options server_options
programs_agree_example =
    programs_agree constants constants-IsConstants (codes "/opt") willing willing marking []
      (codes "????????") (refl, (refl, tt)) (refl, (refl, (refl, (refl, (refl, (refl, tt))))))

-- An archive of the request without an operation, and one of no answers.
abbrev blank_archive : Archive (ClientData ℕ)
blank_archive = record {
  save = λ d. 22 ∷ [];
  load = λ s old. record { value = blank_request; failure = none };
}

abbrev no_archive : Archive (Response (ServerData ℕ))
no_archive = record {
  save = λ r. 22 ∷ [];
  load = λ s old. record { value = old; failure = some std_exception };
}

-- A client comes, its handshake is made, and it sends a request without an operation.
abbrev outage : List HostEvent
outage =
    client_accepted success
    ∷ completed 0 (shaken success)
    ∷ completed 0 (arrived success (codes "       2"))
    ∷ completed 0 (arrived success (0x78 ∷ 22 ∷ []))
    ∷ []

-- One end-point, whatever is asked for.
abbrev localhost : Bytes → Bytes → ErrorCode ⊎ List ℕ
localhost host service = inr (80 ∷ [])

localhost-IsResolver : IsResolver localhost
localhost-IsResolver = record { failure = λ host service ec e. cc }

launched-Opens_example :
    let creates : Outcome (Client Bytes ℕ ℕ ℕ) =
      create marking constants (codes "/opt") willing (λ f. true) [] (codes "????????") args 3 in
    ((e : Exception) × IsRefused willing
        (context_calls 0x100000 (client_options constants (codes "/opt")))
        e
      × (creates ≡ throws e))
    ⊎ ((c : Client Bytes ℕ ℕ ℕ) × (creates ≡ returns c)
        × ClientBegins marking constants
            (codes "/opt")
            willing
            (λ f. true)
            []
            (codes "????????")
            loopback
            localhost
            args
            3
            c)
unfolding client_launch
launched-Opens_example =
    launched-Opens marking constants (codes "/opt") willing (λ f. true) [] (codes "????????")
      loopback localhost (codes "client" ∷ codes "James" ∷ codes "localhost" ∷ codes "8000" ∷ [])
      args 3 constants-IsConstants loopback-IsConnect localhost-IsResolver refl
