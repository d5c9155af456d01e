-- ===== src/Response.antt =====
-- ClientServerFramework/Server/Response.hpp: what the server sends back.
use tcpclient_server.Prelude.{Bool, true, false}

-- `enum TransmitionStatus {OK, BAD}`.
pub data TransmissionStatus : Type 0 where
  ok bad : TransmissionStatus

abbrev pub is_ok : TransmissionStatus → Bool
is_ok ok = true
is_ok bad = false

pub record Response (D : Type 0) : Type 0 where
  pub transmission_status : TransmissionStatus
  pub payload : D
