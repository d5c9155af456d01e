-- ===== src/Session/Tests.antt =====
-- A strategy that doubles even numbers and throws on odd ones.
use tcpclient_server.Prelude.{ℕ, ◌*◌, ◌%◌, [], ◌∷◌, if◌then◌else◌, ◌==◌}
use tcpclient_server.Errors.{logic_error, Outcome, returns, throws}
use tcpclient_server.Response.{Response, ok}
use tcpclient_server.Connection.{WriteStart, writing}

abbrev pub doubling : ℕ → Outcome ℕ
doubling n = if n % 2 == 0 then returns (2 * n) else throws (logic_error "odd")

abbrev pub always_writes : Response ℕ → WriteStart
always_writes r = writing ((r.payload ∷ []) ∷ [])

abbrev pub reply_to : ℕ → Response ℕ
reply_to n = record { transmission_status = ok; payload = n }
