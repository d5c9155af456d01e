-- ===== src/Pipeline/Tests.antt =====
-- An input of a request and of a line that is none, and the answer to it.
use tcpclient_server.Prelude.{ℕ, ◌≡◌, refl, sym, true, List, [], ◌∷◌, arith, Bytes, codes}
use mathlib.Core.Path.{subst}
use tcpclient_server.Errors.{ErrorCode, returns}
use tcpclient_server.Response.{Response}
use tcpclient_server.Filter.{create}
use tcpclient_server.Filter.Laws.{create-IsFilter}
use tcpclient_server.Filter.Tests.{marking, marking-IsZlib}
use tcpclient_server.Io.Tests.{loopback}
use tcpclient_server.Connection.Tests.{loopback-IsPipe, connection_on}
use tcpclient_server.Session.{receiving}
use tcpclient_server.Conversation.{World, conversation}
use tcpclient_server.Conversation.Answers.{IsReady}
use tcpclient_server.Calculator.{ClientData, ServerData, server_action, divide}
use tcpclient_server.Serialization.{
  archive_of, client_data_member, response_member, server_data_member,
}
use tcpclient_server.Serialization.Tests.{
  IsSmall, whole, zeroed, unset, requests, responses, requests-IsArchive, responses-IsArchive,
}
use tcpclient_server.Serialization.Dialogue.{HasFiniteOperands, HasFiniteResult}
use tcpclient_server.Connection.Stream.{IsArchive-IsArchiveOn}
use tcpclient_server.DataScraper.{Stream, stream_on, get_datum, getline, c_string, extract_char}
use tcpclient_server.Header.{skip_spaces, is_space}
use tcpclient_server.DataScraper.Tests.{extract_strokes, blank_request}
use tcpclient_server.DataGenerator.Scraped.{scrape_all}
use tcpclient_server.Pipeline.{kept, AllFit, AllFinite, AllCorrect, scraped_answered}

abbrev world : World Bytes (ClientData ℕ) (ServerData ℕ)
world = record {
  net = [];
  client = connection_on [];
  server = connection_on [];
  session = record {
    session_id = 0;
    point = receiving true;
    requests = [];
    replies = [];
    sent = 0;
  };
}

world-IsReady : IsReady (λ s. s) (create marking true) world
world-IsReady = record {
  client_filter = refl;
  server_filter = refl;
  client_valid = refl;
  server_valid = refl;
  idle = refl;
  waits = (true, refl);
}

abbrev input : Stream
input = stream_on (codes "|||. ||||./||.\nnone\n")

abbrev scraped : List (ClientData ℕ)
scraped = kept (scrape_all (get_datum extract_strokes extract_strokes [] blank_request 0) 2 input)

abbrev only : ClientData ℕ
only = record blank_request {
  client_id = [];
  id = 3;
  operand1 = 4;
  operation = divide;
  operand2 = 2;
}

scraped_lem : scraped ≡ only ∷ []
unfolding get_datum scrape_all getline c_string extract_strokes skip_spaces is_space extract_char
scraped_lem = refl

only_fits :
    AllFit whole 1000 loopback requests responses (λ s. s) IsSmall (create marking true) (only ∷ [])
unfolding create archive_of client_data_member response_member server_data_member server_action
only_fits = (omega arith, omega arith, tt)

only_finite : AllFinite whole 1000 loopback requests responses (λ s. s) IsSmall (only ∷ [])
unfolding server_action
only_finite = ((omega arith, omega arith), omega arith, tt)

scraped_answered_example :
    let ds =
      kept (scrape_all (get_datum extract_strokes extract_strokes [] blank_request 0) 2 input) in
    (w' : World Bytes (ClientData ℕ) (ServerData ℕ)) × (rs : List
      (ErrorCode × Response (ServerData ℕ)))
    × (conversation loopback requests responses (server_action whole 1000) world ds zeroed unset
        ≡ returns (w', rs))
    × AllCorrect whole 1000 ds rs
    × IsReady (λ s. s) (create marking true) w'
scraped_answered_example =
    scraped_answered whole 1000 loopback requests responses (λ s. s) IsSmall extract_strokes
      extract_strokes [] blank_request zeroed 0 2 input (create marking true) world unset
      loopback-IsPipe
      (IsArchive-IsArchiveOn (HasFiniteOperands IsSmall) requests requests-IsArchive)
      (IsArchive-IsArchiveOn (HasFiniteResult IsSmall) responses responses-IsArchive)
      (create-IsFilter marking true marking-IsZlib) world-IsReady
      (subst (AllFinite whole 1000 loopback requests responses (λ s. s) IsSmall) (sym scraped_lem)
        only_finite)
      (subst (AllFit whole 1000 loopback requests responses (λ s. s) IsSmall (create marking true))
        (sym scraped_lem) only_fits)
