-- ===== src/Endpoints/Tests.antt =====
-- The two ends of a connection with SSL and compression.
use tcpclient_server.Prelude.{refl, true, [], Bytes, codes}
use tcpclient_server.Ssl.{SslOptions, context_calls}
use tcpclient_server.Ssl.Tests.{server_options, willing}
use tcpclient_server.Filter.Tests.{marking}
use tcpclient_server.Endpoints.{client_connection, server_connection}
use tcpclient_server.Endpoints.Matching.{Matches, connections-Matches}

abbrev client_options : SslOptions
client_options = record server_options { private_key_filename = []; dh_filename = [] }

connections-Matches_example :
    Matches {S = Bytes}
      (client_connection marking willing [] (codes "????????") client_options true)
      (server_connection marking willing [] (codes "????????") server_options true)
unfolding context_calls
connections-Matches_example =
    connections-Matches marking willing willing [] (codes "????????") true client_options
      server_options (refl, (refl, (refl, tt))) (refl, (refl, (refl, (refl, (refl, (refl, tt))))))
      refl
