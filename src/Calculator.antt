-- ===== src/Calculator.antt =====
-- The calculator's data and the strategies of its two sides, in ClientServerCalculator:
-- TCPClient/client_data.hpp and client_data.cpp, TCPServer/server_data.hpp and ServerAction.hpp,
-- and TCPClient/ClientActions.hpp. The type `double` with its operations, and time stamps, are
-- parameters.
pub mod Answer
pub mod Tests
use tcpclient_server.Prelude.{
  ℕ, ◌≡◌, Bool, true, false, ◌&&◌, List, [], ◌∷◌, ◌++◌, Bytes, codes, ◌==◌, if◌then◌else◌,
}
use tcpclient_server.Errors.{Outcome, returns, throws, ◌>>=◌, logic_error, bad_data_error}
use tcpclient_server.Response.{Response}

-- `client_data::padding_size`.
abbrev pub padding_size : ℕ
padding_size = 2000

-- `enum operation_enum`; `undefined_op` is a value of its type that is none of its enumerators,
-- which an archive can load.
pub data Operation : Type 0 where
  nop add subtract multiply divide : Operation
  undefined_op : ℕ → Operation

-- The operators of `double`.
pub record Doubles (F : Type 0) : Type 0 where
  pub plus : F → F → F
  pub minus : F → F → F
  pub times : F → F → F
  pub over : F → F → F

pub record ClientData (F : Type 0) : Type 0 where
  pub client_id : Bytes
  pub id : ℕ
  pub operand1 : F
  pub operation : Operation
  pub operand2 : F
  pub padding : Bytes

pub record ServerData (F : Type 0) : Type 0 where
  pub timestamp : ℕ
  pub id : ℕ
  pub result : F
  pub padding : Bytes

-- The conversion of `operation_type` to `std::string`, which `<<` writes.
unfoldable pub symbol : Operation → Bytes
symbol nop = codes "NOP"
symbol add = codes "+"
symbol subtract = codes "-"
symbol multiply = codes "*"
symbol divide = codes "/"
symbol (undefined_op n) = codes "undefined"

module _ {F : Type 0} (doubles : Doubles F) where
  -- The switch of `ServerAction`.
  compute : Operation → F → F → Outcome F
  compute add x y = returns (doubles.plus x y)
  compute subtract x y = returns (doubles.minus x y)
  compute multiply x y = returns (doubles.times x y)
  compute divide x y = returns (doubles.over x y)
  compute _ x y = throws (logic_error "Invalid operation")

  -- `ServerAction::operator()` at the time `now`.
  unfoldable pub server_action : ℕ → ClientData F → Outcome (ServerData F)
  unfolding compute
  server_action now d = do
    answer ← compute d.operation d.operand1 d.operand2
    returns (record { timestamp = now; id = d.id; result = answer; padding = d.padding })

-- What `ClientActions` keeps: the last padding, and what it has printed, as the requests' and
-- results' numbers.
pub record Actions (F : Type 0) : Type 0 where
  pub padding : Bytes
  pub requested : List ℕ
  pub answered : List (ℕ × F)

pub data Checked (F : Type 0) : Type 0 where
  passed : Actions F → Checked F
  assertion_failed : Checked F

-- `==` of two arrays.
unfoldable pub same_bytes : Bytes → Bytes → Bool
same_bytes [] [] = true
same_bytes [] (c ∷ t) = false
same_bytes (c ∷ s) [] = false
same_bytes (c ∷ s) (d ∷ t) = (c == d) && same_bytes s t

module _ {F : Type 0} where
  -- `ClientActions::request`.
  unfoldable pub act_on_request : Actions F → ClientData F → Actions F
  act_on_request a d = record a { padding = d.padding; requested = a.requested ++ (d.id ∷ []) }

  -- `ClientActions::response`, with its assertion.
  unfoldable pub act_on_response : Actions F → Response (ServerData F) → Checked F
  unfolding same_bytes
  act_on_response a r =
      if same_bytes r.payload.padding a.padding
      then passed (record a { answered = a.answered ++ ((r.payload.id, r.payload.result) ∷ []) })
      else assertion_failed
