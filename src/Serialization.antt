-- ===== src/Serialization.antt =====
-- The member functions `serialize` of ClientServerFramework/Server/Response.hpp and, in
-- ClientServerCalculator, of TCPClient/client_data.hpp and TCPServer/server_data.hpp, on Boost's
-- text archives. What `ar & x` does with a member of a library type or an enumeration is a
-- parameter, and so is what an archive adds around the members of a class.
pub mod RoundTrip
pub mod Dialogue
pub mod Tests
use tcpclient_server.Prelude.{ℕ, Option, none, some, Bytes, ◌++◌}
use tcpclient_server.Errors.{Exception}
use tcpclient_server.Response.{TransmissionStatus, Response}
use tcpclient_server.Calculator.{Operation, ClientData, ServerData}
use tcpclient_server.Connection.{Archive, Loaded}

-- An object that is being loaded: the object so far, the text that is left, and the exception that
-- ended the load.
pub record Loading (T : Type 0) : Type 0 where
  pub value : T
  pub rest : Bytes
  pub failure : Option Exception

-- `ar & x`: what is written of `x`, and how `x` is set from a text.
pub record Member (A : Type 0) : Type 0 where
  pub put : A → Bytes
  pub take : Bytes → A → Loading A

-- `ar & x` on a load, for the member of an object that `get` and `set` give: not reached after an
-- exception.
unfoldable pub load_member :
    {A T : Type 0} → Member A → (T → A) → (T → A → T) → Loading T → Loading T
load_member m get set l = elim l.failure [
  | some e ↦ l
  | none ↦
      let x = m.take l.rest (get l.value) in
      record { value = set l.value x.value; rest = x.rest; failure = x.failure }
]

-- `Response::serialize`.
unfoldable pub response_member :
    {D : Type 0} → Member TransmissionStatus → Member D → Member (Response D)
unfolding load_member
response_member status data' = record {
  put = λ r. status.put r.transmission_status ++ data'.put r.payload;
  take = λ s old.
      load_member data' (λ r. r.payload) (λ r d. record r { payload = d })
        (load_member status (λ r. r.transmission_status)
          (λ r t. record r { transmission_status = t })
          (record { value = old; rest = s; failure = none }));
}

-- What the archive does with the members of `client_data` and `server_data`. The conversion of
-- `operation_type` is in the member for it.
pub record Members (F : Type 0) : Type 0 where
  pub text : Member Bytes
  pub padding : Member Bytes
  pub int32 : Member ℕ
  pub time : Member ℕ
  pub double : Member F
  pub operation : Member Operation

module _ {F : Type 0} (members : Members F) where
  -- `client_data::serialize`.
  unfoldable pub client_data_member : Member (ClientData F)
  unfolding load_member
  client_data_member = record {
    put = λ d.
        members.text.put d.client_id
        ++ (members.int32.put d.id
            ++ (members.double.put d.operand1
                ++ (members.operation.put d.operation
                    ++ (members.double.put d.operand2 ++ members.padding.put d.padding))));
    take = λ s old.
        load_member members.padding (λ d. d.padding) (λ d x. record d { padding = x })
          (load_member members.double (λ d. d.operand2) (λ d x. record d { operand2 = x })
            (load_member members.operation (λ d. d.operation) (λ d x. record d { operation = x })
              (load_member members.double (λ d. d.operand1) (λ d x. record d { operand1 = x })
                (load_member members.int32 (λ d. d.id) (λ d x. record d { id = x })
                  (load_member members.text (λ d. d.client_id) (λ d x. record d { client_id = x })
                    (record { value = old; rest = s; failure = none }))))));
  }

  -- `server_data::serialize`.
  unfoldable pub server_data_member : Member (ServerData F)
  unfolding load_member
  server_data_member = record {
    put = λ d.
        members.time.put d.timestamp
        ++ (members.int32.put d.id
            ++ (members.double.put d.result ++ members.padding.put d.padding));
    take = λ s old.
        load_member members.padding (λ d. d.padding) (λ d x. record d { padding = x })
          (load_member members.double (λ d. d.result) (λ d x. record d { result = x })
            (load_member members.int32 (λ d. d.id) (λ d x. record d { id = x })
              (load_member members.time (λ d. d.timestamp) (λ d x. record d { timestamp = x })
                (record { value = old; rest = s; failure = none }))));
  }

-- `archive << t` and `archive >> t` on a new archive, where `envelop` is what the archive makes of
-- a class: its own preamble and the class's information around the members.
unfoldable pub archive_of : {T : Type 0} → (Member T → Member T) → Member T → Archive T
archive_of envelop m = record {
  save = (envelop m).put;
  load = λ s old. let l = (envelop m).take s old in record { value = l.value; failure = l.failure };
}
