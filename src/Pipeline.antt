-- ===== src/Pipeline.antt =====
-- The calculator as a whole, from the lines of the client's input to its answers: the scraper of
-- ClientServerCalculator/TCPClient/DataScraper.cpp, the conversation of ClientServerFramework, and
-- the strategy of ClientServerCalculator/TCPServer/ServerAction.hpp.
pub mod Tests
use tcpclient_server.Prelude.{ℕ, zero, suc, ◌≡◌, refl, List, [], ◌∷◌, map, Bytes, inl, inr}
use tcpclient_server.Errors.{ErrorCode, success, Outcome, returns, throws, undefined}
use tcpclient_server.Response.{ok, Response}
use tcpclient_server.Filter.{Filter}
use tcpclient_server.Filter.Laws.{IsFilter}
use tcpclient_server.Io.{Asio}
use tcpclient_server.Connection.{Archive}
use tcpclient_server.Connection.Stream.{IsArchiveOn, IsArchiveOn-Loads, IsPipe, Fits}
use tcpclient_server.Conversation.{World, conversation}
use tcpclient_server.Conversation.Turn.{reply_of}
use tcpclient_server.Conversation.Answers.{IsReady, AllServed, AllLoaded, conversation_served}
use tcpclient_server.Serialization.Dialogue.{HasFiniteOperands, HasFiniteResult}
use tcpclient_server.Calculator.{Doubles, ClientData, ServerData, server_action}
use tcpclient_server.Calculator.Answer.{IsResult, server_action_lem}
use tcpclient_server.DataScraper.{Stream, Extract, get_datum}
use tcpclient_server.DataScraper.Valid.{Ensures, HasValidOp, get_datum-HasValidOp}
use tcpclient_server.DataGenerator.Scraped.{scrape_all}

-- What is pushed onto the queue: the requests, without the lines that are refused.
abbrev pub kept : {A : Type 0} → List (Outcome A) → List A
kept [] = []
kept (returns d ∷ os) = d ∷ kept os
kept (throws e ∷ os) = kept os
kept (undefined ∷ os) = kept os

abbrev pub AllValid : {F : Type 0} → List (ClientData F) → Type 0
AllValid [] = Unit
AllValid (d ∷ ds) = HasValidOp d × AllValid ds

kept-AllValid :
    {F : Type 0} (o : Outcome (ClientData F)) (os : List (Outcome (ClientData F)))
    → Ensures HasValidOp o
    → AllValid (kept os)
    → AllValid (kept (o ∷ os))
kept-AllValid (returns d) os h k = (h, k)
kept-AllValid (throws e) os h k = k
kept-AllValid undefined os h k = k

scrape_all-AllValid :
    {F : Type 0} (get : Stream → Outcome (ClientData F) × Stream)
    → ((is : Stream) → Ensures HasValidOp (get is).0)
    → (n : ℕ) (is : Stream) → AllValid (kept (scrape_all get n is))
unfolding scrape_all
scrape_all-AllValid get h zero is = tt
scrape_all-AllValid get h (suc n) is =
    kept-AllValid (get is).0 (scrape_all get n (get is).1) (h is)
      (scrape_all-AllValid get h n (get is).1)

module _ {F : Type 0} (doubles : Doubles F) (now : ℕ) where
  -- The answer of the strategy, where it has one.
  abbrev pub answer_of : ClientData F → ServerData F
  answer_of d = elim (server_action doubles now d) [
    | returns a ↦ a
    | throws e ↦ record { timestamp = now; id = d.id; result = d.operand1; padding = d.padding }
    | undefined ↦ record { timestamp = now; id = d.id; result = d.operand1; padding = d.padding }
  ]

  -- A response without an error that is marked OK, under the number of its request, with its
  -- padding and the result of its operation on its operands.
  abbrev pub IsCorrect : ClientData F → ErrorCode × Response (ServerData F) → Type 0
  IsCorrect d (ec, r) =
      (ec ≡ success)
      × (r.transmission_status ≡ ok)
      × (r.payload.id ≡ d.id)
      × (r.payload.padding ≡ d.padding)
      × IsResult doubles d.operation d.operand1 d.operand2 r.payload.result

  abbrev pub AllCorrect : List (ClientData F) → List (ErrorCode × Response (ServerData F)) → Type 0
  AllCorrect [] [] = Unit
  AllCorrect [] (r ∷ rs) = ⊥
  AllCorrect (d ∷ ds) [] = ⊥
  AllCorrect (d ∷ ds) (r ∷ rs) = IsCorrect d r × AllCorrect ds rs

  answer_of-IsCorrect :
      (d : ClientData F)
      → HasValidOp d
      → (server_action doubles now d ≡ returns (answer_of d))
        × IsCorrect d (success, reply_of (answer_of d))
  answer_of-IsCorrect d h = elim (server_action_lem doubles now d) [
    | inl (a, e, valid, same, padding, time, result) ↦
        let found : answer_of d ≡ a = rw (answer_of, e) refl in
        (rw found e, (refl, refl, rw found same, rw found padding, rw found result))
    | inr (e, invalid) ↦ absurd (invalid h)
  ]

  map-AllCorrect :
      (ds : List (ClientData F))
      → AllValid ds
      → AllCorrect ds (map (λ d. (success, reply_of (answer_of d))) ds)
  map-AllCorrect [] h = tt
  map-AllCorrect (d ∷ ds) (h, more) = ((answer_of-IsCorrect d h).1, map-AllCorrect ds more)

  module _ {S : Type 0} (asio : Asio S) (requests : Archive (ClientData F))
      (responses : Archive (Response (ServerData F))) (pending : S → Bytes)
      (IsFinite : F → Type 0) where
    abbrev pub AllFit : Filter → List (ClientData F) → Type 0
    AllFit f [] = Unit
    AllFit f (d ∷ ds) = Fits requests f d × Fits responses f (reply_of (answer_of d)) × AllFit f ds

    AllFit-AllServed :
        (f : Filter) (ds : List (ClientData F))
        → AllValid ds
        → AllFit f ds
        → AllServed asio requests responses (server_action doubles now) pending f answer_of ds
    AllFit-AllServed f [] h k = tt
    AllFit-AllServed f (d ∷ ds) (h, hs) (k, k', ks) =
        ((k, k', (answer_of-IsCorrect d h).0), AllFit-AllServed f ds hs ks)

    -- The operands and the result of each request are finite.
    abbrev pub AllFinite : List (ClientData F) → Type 0
    AllFinite [] = Unit
    AllFinite (d ∷ ds) =
        HasFiniteOperands IsFinite d
        × HasFiniteResult IsFinite (reply_of (answer_of d))
        × AllFinite ds

    AllFinite-AllLoaded :
        (ds : List (ClientData F))
        → IsArchiveOn (HasFiniteOperands IsFinite) requests
        → IsArchiveOn (HasFiniteResult IsFinite) responses
        → AllFinite ds
        → AllLoaded asio requests responses (server_action doubles now) pending answer_of ds
    AllFinite-AllLoaded [] law1 law2 h = tt
    AllFinite-AllLoaded (d ∷ ds) law1 law2 (h, k, more) = (
      IsArchiveOn-Loads (HasFiniteOperands IsFinite) requests d law1 h,
      IsArchiveOn-Loads (HasFiniteResult IsFinite) responses (reply_of (answer_of d)) law2 k,
      AllFinite-AllLoaded ds law1 law2 more,
    )

    -- If all operands that the scraper takes from the input of the client, and the results on them,
    -- are finite, as the archives load no others: all requests that it takes are answered, in
    -- order and without an error, each by the result of its operation on its operands under its
    -- own number and with its own padding; and the server does not throw. The lines that are
    -- refused do not matter. All messages fit, the network is reliable, both ends use the filter
    -- `f`, and the session waits for a request.
    pub scraped_answered :
        (extract_int : Extract ℕ) (extract_double : Extract F) (client_id : Bytes)
        (d old : ClientData F) (op n : ℕ) (is : Stream) (f : Filter)
        (w : World S (ClientData F) (ServerData F)) (unset : Response (ServerData F))
        → IsPipe asio pending
        → IsArchiveOn (HasFiniteOperands IsFinite) requests
        → IsArchiveOn (HasFiniteResult IsFinite) responses
        → IsFilter f
        → IsReady pending f w
        → let ds = kept (scrape_all (get_datum extract_int extract_double client_id d op) n is) in
          AllFinite ds
          → AllFit f ds
          → (w' : World S (ClientData F) (ServerData F)) × (rs : List
              (ErrorCode × Response (ServerData F)))
            × (conversation asio requests responses (server_action doubles now) w ds old unset
                ≡ returns (w', rs))
            × AllCorrect ds rs
            × IsReady pending f w'
    scraped_answered extract_int extract_double client_id d old op n is f w unset pipe law1 law2
          filter ready finite fit =
        let get = get_datum extract_int extract_double client_id d op in
        let ds = kept (scrape_all get n is) in
        let valid : AllValid ds =
          scrape_all-AllValid get (get_datum-HasValidOp extract_int extract_double client_id d op) n
            is in
        let (w', run, answered) =
          conversation_served asio requests responses (server_action doubles now) pending pipe f
            filter w answer_of ds old unset ready (AllFinite-AllLoaded ds law1 law2 finite)
            (AllFit-AllServed f ds valid fit) in
        (
          w',
          map (λ x. (success, reply_of (answer_of x))) ds,
          run,
          map-AllCorrect ds valid,
          answered.ready,
        )
