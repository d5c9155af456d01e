-- ===== src/Serialization/Tests.antt =====
-- A text archive in which a number is itself and a text stands behind its length.
use tcpclient_server.Prelude.{
  ◌<◌, ℕ, zero, suc, ◌+◌, ◌-◌, ◌*◌, ◌/◌, ◌≡◌, refl, arith, true, [], ◌∷◌, ◌++◌, Bytes, none, some,
  length, codes, take, drop, take-append, drop-append,
}
use tcpclient_server.Errors.{success, returns, std_exception}
use tcpclient_server.Response.{TransmissionStatus, ok, bad, Response}
use tcpclient_server.Filter.{create}
use tcpclient_server.Filter.Laws.{create-IsFilter}
use tcpclient_server.Filter.Tests.{marking, marking-IsZlib}
use tcpclient_server.Io.Tests.{loopback}
use tcpclient_server.Connection.{Archive, read, write}
use tcpclient_server.Connection.Stream.{IsArchive, IsArchive-IsArchiveOn}
use tcpclient_server.Connection.Tests.{connection_on, loopback-IsPipe}
use tcpclient_server.Calculator.{
  Operation, nop, add, subtract, multiply, divide, undefined_op, Doubles, ClientData, ServerData,
  server_action, passed, act_on_request, act_on_response,
}
use tcpclient_server.Serialization.{
  Loading, Member, Members, response_member, client_data_member, server_data_member, archive_of,
}
use tcpclient_server.Serialization.RoundTrip.{
  IsMembers, IsEnvelope, client_data-IsArchive, response-IsArchive,
}
use tcpclient_server.Serialization.Dialogue.{HasFiniteOperands, HasFiniteResult, dialogue}

abbrev stopped : {A : Type 0} → A → Loading A
stopped old = record { value = old; rest = []; failure = some std_exception }

abbrev take_number : Bytes → ℕ → Loading ℕ
take_number [] old = stopped old
take_number (n ∷ s) old = record { value = n; rest = s; failure = none }

abbrev number : Member ℕ
number = record { put = λ n. n ∷ []; take = take_number }

abbrev take_text : Bytes → Bytes → Loading Bytes
take_text [] old = stopped old
take_text (n ∷ s) old = record { value = take n s; rest = drop n s; failure = none }

abbrev text : Member Bytes
text = record { put = λ s. length s ∷ s; take = take_text }

abbrev code_of : Operation → ℕ
code_of nop = 0
code_of add = 1
code_of subtract = 2
code_of multiply = 3
code_of divide = 4
code_of (undefined_op n) = suc (suc (suc (suc (suc n))))

abbrev of_code : ℕ → Operation
of_code zero = nop
of_code (suc zero) = add
of_code (suc (suc zero)) = subtract
of_code (suc (suc (suc zero))) = multiply
of_code (suc (suc (suc (suc zero)))) = divide
of_code (suc (suc (suc (suc (suc n))))) = undefined_op n

abbrev take_operation : Bytes → Operation → Loading Operation
take_operation [] old = stopped old
take_operation (n ∷ s) old = record { value = of_code n; rest = s; failure = none }

of_code-code_of : (o : Operation) → of_code (code_of o) ≡ o
of_code-code_of nop = refl
of_code-code_of add = refl
of_code-code_of subtract = refl
of_code-code_of multiply = refl
of_code-code_of divide = refl
of_code-code_of (undefined_op n) = refl

abbrev take_status : Bytes → TransmissionStatus → Loading TransmissionStatus
take_status [] old = stopped old
take_status (zero ∷ s) old = record { value = ok; rest = s; failure = none }
take_status (suc n ∷ s) old = record { value = bad; rest = s; failure = none }

abbrev status_code : TransmissionStatus → ℕ
status_code ok = 0
status_code bad = 1

abbrev status : Member TransmissionStatus
status = record { put = λ t. status_code t ∷ []; take = take_status }

status-taken :
    (t old : TransmissionStatus) (rest : Bytes)
    → take_status (status_code t ∷ rest) old ≡ record { value = t; rest = rest; failure = none }
status-taken ok old rest = refl
status-taken bad old rest = refl

abbrev members : Members ℕ
members = record {
  text = text;
  padding = text;
  int32 = number;
  time = number;
  double = number;
  operation = record { put = λ o. code_of o ∷ []; take = take_operation };
}

text-taken :
    (s old rest : Bytes)
    → take_text (length s ∷ (s ++ rest)) old ≡ record { value = s; rest = rest; failure = none }
text-taken s old rest =
    rw (take-append s rest (length s) refl, drop-append s rest (length s) refl) refl

members-IsMembers : IsMembers members
members-IsMembers = record {
  text = record { taken = text-taken };
  padding = record { taken = text-taken };
  int32 = record { taken = λ x old rest. refl };
  time = record { taken = λ x old rest. refl };
  double = record { taken = λ x old rest. refl };
  operation = record { taken = λ o old rest. rw (of_code-code_of o) refl };
}

abbrev take_signed : {A : Type 0} → Member A → Bytes → A → Loading A
take_signed m [] old = stopped old
take_signed m (c ∷ s) old = m.take s old

abbrev signed : {A : Type 0} → Member A → Member A
signed m = record { put = λ x. 22 ∷ m.put x; take = take_signed m }

signed-IsEnvelope : {A : Type 0} → IsEnvelope {T = A} signed
signed-IsEnvelope = record {
  keeps = λ m law. record { taken = λ x old rest. law.taken x old rest };
  begins = λ m t e. cc;
}

client_data-IsArchive_example : IsArchive (archive_of signed (client_data_member members))
client_data-IsArchive_example =
    client_data-IsArchive members members-IsMembers signed signed-IsEnvelope

response-IsArchive_example :
    IsArchive (archive_of signed (response_member status (signed (server_data_member members))))
response-IsArchive_example =
    response-IsArchive members members-IsMembers status signed signed
      (record { taken = status-taken }) signed-IsEnvelope signed-IsEnvelope

pub requests-IsArchive : IsArchive (archive_of signed (client_data_member members))
requests-IsArchive = client_data-IsArchive members members-IsMembers signed signed-IsEnvelope

pub responses-IsArchive :
    IsArchive (archive_of signed (response_member status (signed (server_data_member members))))
responses-IsArchive =
    response-IsArchive members members-IsMembers status signed signed
      (record { taken = status-taken }) signed-IsEnvelope signed-IsEnvelope

abbrev pub whole : Doubles ℕ
whole = record {
  plus = λ x y. x + y;
  minus = λ x y. x - y;
  times = λ x y. x * y;
  over = λ x y. x / y;
}

abbrev product : ClientData ℕ
product = record {
  client_id = codes "James";
  id = 7;
  operand1 = 6;
  operation = multiply;
  operand2 = 9;
  padding = codes "pad";
}

abbrev answer : ServerData ℕ
answer = record { timestamp = 1000; id = 7; result = 54; padding = codes "pad" }

abbrev pub zeroed : ClientData ℕ
zeroed = record {
  client_id = [];
  id = 0;
  operand1 = 0;
  operation = nop;
  operand2 = 0;
  padding = [];
}

abbrev pub unset : Response (ServerData ℕ)
unset = record {
  transmission_status = bad;
  payload = record { timestamp = 0; id = 0; result = 0; padding = [] };
}

abbrev pub requests : Archive (ClientData ℕ)
requests = archive_of signed (client_data_member members)

abbrev pub responses : Archive (Response (ServerData ℕ))
responses = archive_of signed (response_member status (signed (server_data_member members)))

-- The numbers that stand for the finite ones here.
abbrev pub IsSmall : ℕ → Type 0
IsSmall n = n < 1000

dialogue_example :
    let w = write loopback requests (connection_on []) product success in
    let r =
      read loopback requests (record (connection_on []) { socket = w.connection.socket }) zeroed in
    let reply : Response (ServerData ℕ) = record { transmission_status = ok; payload = answer } in
    let v = write loopback responses r.connection reply success in
    let q = read loopback responses (record w.connection { socket = v.connection.socket }) unset in
    (r.value ≡ product)
    × (server_action whole 1000 r.value ≡ returns q.value.payload)
    × (r.ec ≡ success)
    × (q.ec ≡ success)
    × (act_on_response
          (act_on_request (record { padding = []; requested = []; answered = [] }) product)
          q.value
        ≡ passed (record { padding = codes "pad"; requested = 7 ∷ []; answered = (7, 54) ∷ [] }))
unfolding create archive_of client_data_member response_member server_data_member server_action
dialogue_example =
    dialogue loopback (λ s. s) whole requests responses IsSmall (connection_on [])
      (connection_on []) product zeroed unset 1000 answer
      (record { padding = []; requested = []; answered = [] })
      (IsArchive-IsArchiveOn (HasFiniteOperands IsSmall) requests requests-IsArchive)
      (IsArchive-IsArchiveOn (HasFiniteResult IsSmall) responses responses-IsArchive)
      loopback-IsPipe (create-IsFilter marking true marking-IsZlib) refl refl refl
      (omega arith, omega arith) (omega arith) (omega arith) (omega arith) refl refl
