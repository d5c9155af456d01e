-- ===== src/Server/Tests.antt =====
-- A server with two sessions.
use tcpclient_server.Prelude.{ℕ, refl, false, [], ◌∷◌}
use tcpclient_server.Errors.{success, timed_out, Outcome, returns}
use tcpclient_server.Io.{Initialization, handshaking, server}
use tcpclient_server.Session.{
  initializing, receiving, replying, Session, initialized, received, new_session, handle_event,
  do_initialize,
}
use tcpclient_server.Session.Tests.{doubling, always_writes, reply_to}
use tcpclient_server.Server.{
  Server, accepted, session_event, new_server, find_session, put_session, serve, run, on_accepted,
  do_accept,
}
use tcpclient_server.Server.Sessions.{IsServer}
use tcpclient_server.Server.Replies.{AllSessions, run-new_server-AllSessions}

abbrev shaking : Outcome Initialization
shaking = returns (handshaking server)

abbrev session_at : ℕ → Session ℕ ℕ
session_at n = record (new_session n) { point = initializing }

abbrev two_sessions : Server ℕ ℕ
two_sessions = record {
  count = 4;
  pending = new_session 3;
  sessions = session_at 2 ∷ record (session_at 0) { point = receiving false } ∷ [];
}

-- Session 0 has a client, nobody came for session 1, session 2 has a client, and session 3 waits.
abbrev accepting : Server ℕ ℕ
accepting = record {
  count = 4;
  pending = new_session 3;
  sessions = session_at 2 ∷ session_at 0 ∷ [];
}

-- Session 2 has its client and has read a request, session 0 has a client.
abbrev replying_server : Server ℕ ℕ
replying_server = record accepting {
  sessions =
      record (session_at 2) { point = replying; requests = 4 ∷ []; replies = reply_to 8 ∷ [] }
      ∷ session_at 0
      ∷ [];
}

run-new_server-AllSessions_example :
    IsServer replying_server × AllSessions shaking doubling always_writes replying_server.sessions
unfolding run serve new_server on_accepted do_accept do_initialize new_session handle_event
    find_session put_session
run-new_server-AllSessions_example =
    run-new_server-AllSessions shaking doubling always_writes replying_server
      (accepted success
        ∷ accepted timed_out
        ∷ accepted success
        ∷ session_event 2 (initialized success)
        ∷ session_event 2 (received success 9 4)
        ∷ [])
      refl
