-- ===== src/Conversation/Tests.antt =====
-- A conversation of two requests with a server that doubles numbers.
use tcpclient_server.Prelude.{ℕ, zero, suc, ◌+◌, ◌≡◌, refl, arith, true, [], ◌∷◌, Bytes, none, some}
use tcpclient_server.Errors.{success, std_exception, Outcome, returns}
use tcpclient_server.Response.{TransmissionStatus, ok, bad, Response}
use tcpclient_server.Filter.{create}
use tcpclient_server.Filter.Laws.{create-IsFilter}
use tcpclient_server.Filter.Tests.{marking, marking-IsZlib}
use tcpclient_server.Io.Tests.{loopback}
use tcpclient_server.Connection.{Archive, Loaded}
use tcpclient_server.Connection.Stream.{IsArchive}
use tcpclient_server.Connection.Tests.{
  number_archive, number_archive-IsArchive, loopback-IsPipe, connection_on,
}
use tcpclient_server.Session.{receiving}
use tcpclient_server.Conversation.{World, conversation}
use tcpclient_server.Conversation.Turn.{reply_of}
use tcpclient_server.Conversation.Answers.{IsReady, Answered, conversation_answers}

abbrev code_of : TransmissionStatus → ℕ
code_of ok = 0
code_of bad = 1

abbrev status_of : ℕ → TransmissionStatus
status_of zero = ok
status_of (suc n) = bad

abbrev load_response : Bytes → Response ℕ → Loaded (Response ℕ)
load_response (c ∷ t ∷ n ∷ s) old = record {
  value = record { transmission_status = status_of t; payload = n };
  failure = none;
}
load_response _ old = record { value = old; failure = some std_exception }

abbrev pub response_archive : Archive (Response ℕ)
response_archive = record {
  save = λ r. 22 ∷ code_of r.transmission_status ∷ r.payload ∷ [];
  load = load_response;
}

status_of-code_of : (t : TransmissionStatus) → status_of (code_of t) ≡ t
status_of-code_of ok = refl
status_of-code_of bad = refl

response_archive-IsArchive : IsArchive response_archive
response_archive-IsArchive = record {
  reloads = λ t old. rw (status_of-code_of t.transmission_status) refl;
  signature = λ t e. cc;
}

abbrev pub doubling : ℕ → Outcome ℕ
doubling n = returns (n + n)

abbrev world : World Bytes ℕ ℕ
world = record {
  net = [];
  client = connection_on [];
  server = connection_on [];
  session = record {
    session_id = 0;
    point = receiving true;
    requests = [];
    replies = [];
    sent = 0;
  };
}

world-IsReady : IsReady (λ s. s) (create marking true) world
world-IsReady = record {
  client_filter = refl;
  server_filter = refl;
  client_valid = refl;
  server_valid = refl;
  idle = refl;
  waits = (true, refl);
}

abbrev pub nothing : Response ℕ
nothing = record { transmission_status = bad; payload = 0 }

conversation_answers_example :
    (w' : World Bytes ℕ ℕ) × (conversation loopback number_archive response_archive doubling world
        (5 ∷ 6 ∷ [])
        0
        nothing
      ≡ returns (w', (success, reply_of 10) ∷ (success, reply_of 12) ∷ []))
    × Answered loopback number_archive response_archive doubling
        (λ s. s)
        (create marking true)
        world
        w'
        (λ n. n + n)
        (5 ∷ 6 ∷ [])
unfolding create
conversation_answers_example =
    conversation_answers loopback number_archive response_archive doubling (λ s. s) loopback-IsPipe
      number_archive-IsArchive response_archive-IsArchive (create marking true)
      (create-IsFilter marking true marking-IsZlib) world (λ n. n + n) (5 ∷ 6 ∷ []) 0 nothing
      world-IsReady ((omega arith, omega arith, refl), ((omega arith, omega arith, refl), tt))
