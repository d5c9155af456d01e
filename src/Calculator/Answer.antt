-- ===== src/Calculator/Answer.antt =====
-- The server's answer to a request, and the client's check of it.
use tcpclient_server.Prelude.{ℕ, ◌≡◌, refl, ◌⊎◌, inl, inr, arith, true, [], ◌∷◌, ◌++◌, Bytes}
use tcpclient_server.Errors.{returns, throws, logic_error}
use tcpclient_server.Response.{ok}
use tcpclient_server.Calculator.{
  Operation, nop, add, subtract, multiply, divide, undefined_op, Doubles, ClientData, ServerData,
  compute, server_action, Actions, passed, same_bytes, act_on_request, act_on_response,
}

abbrev pub IsValidOp : Operation → Type 0
IsValidOp nop = ⊥
IsValidOp (undefined_op n) = ⊥
IsValidOp _ = Unit

-- What the result of an operation is to be.
abbrev pub IsResult : {F : Type 0} → Doubles F → Operation → F → F → F → Type 0
IsResult doubles add x y r = r ≡ doubles.plus x y
IsResult doubles subtract x y r = r ≡ doubles.minus x y
IsResult doubles multiply x y r = r ≡ doubles.times x y
IsResult doubles divide x y r = r ≡ doubles.over x y
IsResult doubles _ x y r = ⊥

module _ {F : Type 0} (doubles : Doubles F) where
  compute-cases :
      (o : Operation) (x y : F)
      → ((r : F) × (compute doubles o x y ≡ returns r) × IsResult doubles o x y r × IsValidOp o)
        ⊎ ((compute doubles o x y ≡ throws (logic_error "Invalid operation")) × ¬ IsValidOp o)
  unfolding compute
  compute-cases add x y = inl (doubles.plus x y, refl, refl, tt)
  compute-cases subtract x y = inl (doubles.minus x y, refl, refl, tt)
  compute-cases multiply x y = inl (doubles.times x y, refl, refl, tt)
  compute-cases divide x y = inl (doubles.over x y, refl, refl, tt)
  compute-cases nop x y = inr (refl, λ h. h)
  compute-cases (undefined_op n) x y = inr (refl, λ h. h)

  -- For every request: one with a valid operation is answered with its own number, its own
  -- padding, the time, and the result of its operation on its operands in their order; any other
  -- makes the strategy throw.
  pub server_action_lem :
      (now : ℕ) (d : ClientData F)
      → ((a : ServerData F) × (server_action doubles now d ≡ returns a)
          × IsValidOp d.operation
          × (a.id ≡ d.id)
          × (a.padding ≡ d.padding)
          × (a.timestamp ≡ now)
          × IsResult doubles d.operation d.operand1 d.operand2 a.result)
        ⊎ ((server_action doubles now d ≡ throws (logic_error "Invalid operation"))
            × ¬ IsValidOp d.operation)
  unfolding server_action
  server_action_lem now d = elim (compute-cases d.operation d.operand1 d.operand2) [
    | inl (r, e, is_result, valid) ↦ inl (
      record { timestamp = now; id = d.id; result = r; padding = d.padding },
      rw e,
      valid,
      refl,
      refl,
      refl,
      is_result,
    )
    | inr (e, invalid) ↦ inr (rw e, invalid)
  ]

  same_bytes_refl : (s : Bytes) → same_bytes s s ≡ true
  unfolding same_bytes
  same_bytes_refl [] = refl
  same_bytes_refl (c ∷ s) = ground (arith, same_bytes_refl s)

  -- The assertion of the client's strategy holds for the answer to the request that it acted on
  -- last, and the result is printed under the number of that request.
  pub response_checked :
      (acts : Actions F) (now : ℕ) (d : ClientData F) (a : ServerData F)
      → server_action doubles now d ≡ returns a
      → act_on_response (act_on_request acts d) (record { transmission_status = ok; payload = a })
        ≡ passed (record {
          padding = d.padding;
          requested = acts.requested ++ (d.id ∷ []);
          answered = acts.answered ++ ((d.id, a.result) ∷ []);
        })
  unfolding act_on_response act_on_request server_action
  response_checked acts now d a h =
      ground (arith, compute-cases d.operation d.operand1 d.operand2, same_bytes_refl d.padding)
