-- ===== src/Connection/State.antt =====
-- The members of Connection_base in ClientServerFramework/Shared/Connection/Connection_base.hpp,
-- its buffers, and what its operations come to.
use tcpclient_server.Prelude.{
  ℕ, ◌-◌, ◌^◌, List, ◌++◌, Bytes, Option, length, take, drop, replicate, ltb, if◌then◌else◌,
}
use tcpclient_server.Errors.{ErrorCode, Exception, length_error, Outcome, returns, throws}
use tcpclient_server.Filter.{Filter}
use tcpclient_server.Io.{Io}

-- What `archive >> t` leaves in `t`, and the exception that it ended with.
pub record Loaded (T : Type 0) : Type 0 where
  pub value : T
  pub failure : Option Exception

-- `boost::archive::text_oarchive` and `text_iarchive` at the type `T`.
pub record Archive (T : Type 0) : Type 0 where
  pub save : T → Bytes
  pub load : Bytes → T → Loaded T

pub record Connection (S : Type 0) : Type 0 where
  pub io : Io
  pub filter : Filter
  pub socket : S
  pub outbound_header : Bytes
  pub outbound_data : Bytes
  pub inbound_header : Bytes
  pub inbound_data : Bytes

-- `std::vector<char>::max_size()`.
abbrev pub max_size : ℕ
max_size = 2 ^ 63 - 1

-- `std::vector<char>::resize`.
unfoldable pub resize : ℕ → Bytes → Outcome Bytes
resize size v =
    if ltb max_size size
    then throws length_error
    else returns (take size v ++ replicate (size - length v) 0)

-- A transfer into a buffer overwrites the front of it.
unfoldable pub overwrite : Bytes → Bytes → Bytes
overwrite received buffer = received ++ drop (length received) buffer

-- The result of `write`.
pub record WriteResult (S : Type 0) : Type 0 where
  pub connection : Connection S
  pub ec : ErrorCode
  pub length : ℕ

-- The result of `read`.
pub record ReadResult (S T : Type 0) : Type 0 where
  pub connection : Connection S
  pub value : T
  pub ec : ErrorCode
  pub length : Outcome ℕ

-- `async_write` calls the handler at once, or leaves a transfer of its buffers pending.
pub data WriteStart : Type 0 where
  called : ErrorCode → ℕ → WriteStart
  writing : List Bytes → WriteStart

-- So does the handler of a header: it reports to the caller, or leaves a transfer of so many bytes
-- pending, with the number of bytes read before.
pub data HeaderStep : Type 0 where
  reported : ErrorCode → ℕ → HeaderStep
  reading_data : ℕ → ℕ → HeaderStep

-- What an asynchronous read comes to: a call of the caller's handler, or an exception that leaves
-- the event loop.
pub record AsyncResult (S T : Type 0) : Type 0 where
  pub connection : Connection S
  pub value : T
  pub report : Outcome (ErrorCode × ℕ)
