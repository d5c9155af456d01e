-- ===== src/Programs/Outages.antt =====
-- How the program of the server ends by the handlers of its sessions.
use tcpclient_server.Prelude.{ℕ, true, List, ◌∷◌, ◌++◌, ◌≡◌, refl, some, inl, inr, ◌⊎◌, sym, ◌∙◌}
use tcpclient_server.Errors.{
  ErrorCode, success, is_error, Exception, Outcome, returns, throws, undefined,
}
use tcpclient_server.Response.{Response}
use tcpclient_server.Connection.{WriteStart}
use tcpclient_server.Io.{handshaking, server}
use tcpclient_server.Session.{initialized, received}
use tcpclient_server.Calculator.{Doubles, ClientData, ServerData, server_action}
use tcpclient_server.Calculator.Answer.{IsValidOp, server_action_lem}
use tcpclient_server.Server.{Server, ServerEvent, session_event, new_server, run}
use tcpclient_server.Server.Failure.{
  Ends, initialization_thrown, initialization_failed, handshake_failed, strategy_thrown, run-Stops,
}
use tcpclient_server.Programs.{Exit, exit_failure, server_exit}

-- What a client has to do to take the calculator's server down.
abbrev pub IsFatal : {F : Type 0} → ServerEvent (ClientData F) → Type 0
IsFatal {F} e =
    ((i : ℕ) × (ec : ErrorCode) × (e ≡ session_event i (initialized ec)) × (is_error ec ≡ true))
    ⊎ ((i n : ℕ) × (d : ClientData F) × (e ≡ session_event i (received success n d))
        × ¬ IsValidOp d.operation)

pub server_exit-cases :
    {A : Type 0} (o : Outcome A) (x : Exit)
    → server_exit o ≡ some x
    → (x ≡ exit_failure) × ((e : Exception) × (o ≡ throws e))
unfolding server_exit
server_exit-cases (returns a) x h = cc
server_exit-cases (throws e) x h = (cc, (e, refl))
server_exit-cases undefined x h = cc

module _ {F : Type 0} (doubles : Doubles F) (now : ℕ) where
  pub server_action-invalid :
      (d : ClientData F) (x : Exception)
      → server_action doubles now d ≡ throws x
      → ¬ IsValidOp d.operation
  server_action-invalid d x h = elim (server_action_lem doubles now d) [
    | inl (a, e, valid, same, padding, time, result) ↦
        let no : returns a ≡ throws x = sym e ∙ h in cc
    | inr (e, invalid) ↦ invalid
  ]

module _ {F : Type 0} (doubles : Doubles F) (now : ℕ)
    (async_write : Response (ServerData F) → WriteStart) where
  Ends-IsFatal :
      (u : Server (ClientData F) (ServerData F)) (e : ServerEvent (ClientData F)) (x : Exception)
      → Ends (returns (handshaking server)) (server_action doubles now) u e x
      → IsFatal e
  Ends-IsFatal u e x (initialization_thrown ec y fine same) = cc
  Ends-IsFatal u e x (initialization_failed ec code fine same bad) = cc
  Ends-IsFatal u e x (handshake_failed i s ec found at bad) = inl (i, ec, refl, bad)
  Ends-IsFatal u e x (strategy_thrown i s n d y found thrown) =
      inr (i, n, d, refl, server_action-invalid doubles now d y thrown)

  -- The handlers of the calculator's server, which speaks SSL, over messages that are decoded
  -- already (Serving has the transfers): they never end the program with success, and end it with a
  -- failure only at an event by which the handshake of a client fails, or a session reads a request
  -- without a valid operation. The events before that one were all served.
  pub server_exit-IsFatal :
      (es : List (ServerEvent (ClientData F))) (x : Exit)
      → let serves =
          run (returns (handshaking server)) (server_action doubles now) async_write new_server in
        server_exit (serves es) ≡ some x
        → (x ≡ exit_failure)
          × (before after : List (ServerEvent (ClientData F))) × (e : ServerEvent (ClientData F))
          × (u : Server (ClientData F) (ServerData F)) × (es ≡ before ++ (e ∷ after))
          × (serves before ≡ returns u)
          × IsFatal e
  server_exit-IsFatal es x h =
      let (failure, (ex, thrown)) =
        server_exit-cases
          (run (returns (handshaking server)) (server_action doubles now) async_write new_server es)
          x h in
      let (before, after, e, u, same, ran, why) =
        run-Stops (returns (handshaking server)) (server_action doubles now) async_write new_server
          es ex thrown in
      (failure, before, after, e, u, same, ran, Ends-IsFatal u e ex why)
