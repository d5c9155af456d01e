-- ===== src/Io/Tests.antt =====
-- A socket that hands back what is written to it, and the strategies over it.
use tcpclient_server.Prelude.{
  ℕ, List, [], ◌∷◌, ◌++◌, Bytes, none, some, length, take, drop, leb, if◌then◌else◌,
}
use tcpclient_server.Errors.{success, other, timed_out}
use tcpclient_server.Ssl.{method_sslv23}
use tcpclient_server.Ssl.Tests.{server_options}
use tcpclient_server.Io.{Received, Connected, Asio}
use tcpclient_server.SslIo.{SslIo, ssl_verify_callback}

abbrev pub joined : List Bytes → Bytes
joined [] = []
joined (b ∷ bs) = b ++ joined bs

-- `other 2` stands for the end of the stream.
abbrev loop_read : ℕ → Bytes → Received Bytes
loop_read n s =
    if leb n (length s)
    then record { socket = drop n s; ec = success; bytes = take n s }
    else record { socket = []; ec = other 2; bytes = s }

abbrev loop_connect : List ℕ → Bytes → Connected Bytes
loop_connect [] s = record { socket = s; ec = other 111; endpoint = none }
loop_connect (p ∷ ps) s = record { socket = s; ec = success; endpoint = some p }

abbrev pub loopback : Asio Bytes
loopback = record {
  write = λ bs s. record { socket = s ++ joined bs; ec = success; length = length (joined bs) };
  read = loop_read;
  connect = loop_connect;
  handshake = λ s socket. record { socket = socket; ec = timed_out };
}

abbrev pub client_io : SslIo
client_io = record {
  context = record { method = method_sslv23; calls = [] };
  options = server_options;
  verify_mode = some 1;
  verify_callback = some ssl_verify_callback;
}
