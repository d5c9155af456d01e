-- ===== src/Calculator/Tests.antt =====
-- Requests with whole numbers for operands.
use tcpclient_server.Prelude.{ℕ, ◌+◌, ◌-◌, ◌*◌, ◌/◌, ◌≡◌, ◌⊎◌, [], codes}
use tcpclient_server.Errors.{returns, throws, logic_error}
use tcpclient_server.Calculator.{divide, Doubles, ClientData, ServerData, server_action, Actions}
use tcpclient_server.Calculator.Answer.{IsValidOp, IsResult, server_action_lem}

abbrev whole : Doubles ℕ
whole = record {
  plus = λ x y. x + y;
  minus = λ x y. x - y;
  times = λ x y. x * y;
  over = λ x y. x / y;
}

abbrev quotient : ClientData ℕ
quotient = record {
  client_id = codes "James";
  id = 12;
  operand1 = 84;
  operation = divide;
  operand2 = 2;
  padding = codes "The padding...";
}

abbrev reply : ServerData ℕ
reply = record { timestamp = 1000; id = 12; result = 42; padding = codes "The padding..." }

abbrev idle : Actions ℕ
idle = record { padding = []; requested = []; answered = [] }

server_action_lem_example :
    ((a : ServerData ℕ) × (server_action whole 1000 quotient ≡ returns a)
      × IsValidOp quotient.operation
      × (a.id ≡ quotient.id)
      × (a.padding ≡ quotient.padding)
      × (a.timestamp ≡ 1000)
      × IsResult whole quotient.operation quotient.operand1 quotient.operand2 a.result)
    ⊎ ((server_action whole 1000 quotient ≡ throws (logic_error "Invalid operation"))
        × ¬ IsValidOp quotient.operation)
server_action_lem_example = server_action_lem whole 1000 quotient
