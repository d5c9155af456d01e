-- ===== src/Connection.antt =====
-- ClientServerFramework/Shared/Connection/Connection_base.hpp: messages on top of a socket. The
-- reference and out parameters of a member function are fields of its result. Memory does not run
-- out. The Boost archives and the operations on sockets are parameters.
pub mod State
pub mod Stream
pub mod Transfers
pub mod Sync
pub mod Faults
pub mod Async
pub mod Converse
pub mod Arrival
pub mod Departure
pub mod Exchange
pub mod Kept
pub mod Raised
pub mod Tests
use tcpclient_server.Prelude.{
  ℕ, suc, ◌+◌, ◌-◌, ◌^◌, ◌≡◌, ◌≢◌, Bool, true, false, List, [], ◌∷◌, ◌++◌, Bytes, Option, none,
  some, length, take, drop, replicate, ltb, if◌then◌else◌,
}
use tcpclient_server.Errors.{
  ErrorCode, success, invalid_argument, is_error, Exception, std_exception, length_error, Outcome,
  returns, throws, undefined,
}
use tcpclient_server.Header.{header_length, to_hex, setw, format_header, parse_header}
use tcpclient_server.Filter.{Filter}
use tcpclient_server.Io.{Io, Asio, Written, Received, write_impl, read_impl}
pub use tcpclient_server.Connection.State.{
  Loaded, Archive, Connection, max_size, WriteResult, ReadResult, WriteStart, called, writing,
  HeaderStep, reported, reading_data, AsyncResult,
}
unfoldable pub use tcpclient_server.Connection.State.{resize, overwrite}

module _ {S T : Type 0} (asio : Asio S) (archive : Archive T) where
  -- The part that `write` and `async_write` share: the data is saved and filtered, and the header
  -- formatted.
  unfoldable pub prepare : Connection S → T → Connection S × Option Bytes
  prepare c t =
      let outbound_data = c.filter.output_filter (archive.save t) in
      (record c { outbound_data = outbound_data }, format_header (length outbound_data))

  unfoldable pub write : Connection S → T → ErrorCode → WriteResult S
  unfolding prepare
  write c t ec =
      let (prepared, header) = prepare c t in
      elim header [
        | none ↦ record {
          connection = prepared;
          ec = invalid_argument;
          length = length (setw header_length (to_hex (length prepared.outbound_data)));
        }
        | some h ↦
            let w = write_impl asio c.io (h ∷ prepared.outbound_data ∷ []) c.socket in
            record {
              connection = record prepared { socket = w.socket; outbound_header = h };
              ec = w.ec;
              length = w.length;
            }
      ]

  unfoldable pub async_write : Connection S → T → Connection S × WriteStart
  unfolding prepare
  async_write c t =
      let (prepared, header) = prepare c t in
      elim header [
        | none ↦ (prepared, called invalid_argument header_length)
        | some h ↦
            (record prepared { outbound_header = h }, writing (h ∷ prepared.outbound_data ∷ []))
      ]

  -- `archive >> t` on the filtered data. The caught exception is thrown again as a copy of its
  -- base.
  decoded : Loaded T → Bool
  decoded l = elim l.failure [ none ↦ true | some e ↦ false ]

  -- The end of `read`, after the data has been filtered.
  extract : Connection S → T → ErrorCode → ℕ → Outcome Bytes → ReadResult S T
  unfolding decoded
  extract c t ec len (throws e) = record { connection = c; value = t; ec = ec; length = throws e }
  extract c t ec len undefined = record { connection = c; value = t; ec = ec; length = undefined }
  extract c t ec len (returns inbound) =
      let l = archive.load inbound t in
      if decoded l
      then record { connection = c; value = l.value; ec = ec; length = returns len }
      else record {
        connection = c;
        value = l.value;
        ec = invalid_argument;
        length = throws std_exception;
      }

  -- The data transfer of `read` into the resized buffer. The code of this transfer is not looked
  -- at.
  receive_data : Connection S → T → ErrorCode → ℕ → ℕ → Outcome Bytes → ReadResult S T
  unfolding extract
  receive_data c t ec len size (throws e) = record {
    connection = c;
    value = t;
    ec = ec;
    length = throws e;
  }
  receive_data c t ec len size undefined = record {
    connection = c;
    value = t;
    ec = ec;
    length = undefined;
  }
  receive_data c t ec len size (returns buffer) =
      let r = read_impl asio c.io size c.socket in
      let inbound_data = overwrite r.bytes buffer in
      extract (record c { socket = r.socket; inbound_data = inbound_data }) t r.ec
        (len + length r.bytes) (c.filter.input_filter inbound_data)

  -- `read` behind its header: `handle_determine_data_size` is called without a handler.
  pub receive : Connection S → T → ErrorCode → ℕ → Option ℕ → ReadResult S T
  unfolding receive_data
  receive c t ec len none = record { connection = c; value = t; ec = ec; length = returns 0 }
  receive c t ec len (some size) = receive_data c t ec len size (resize size c.inbound_data)

  pub read : Connection S → T → ReadResult S T
  unfolding receive
  read c t =
      let r = read_impl asio c.io header_length c.socket in
      let header = overwrite r.bytes c.inbound_header in
      let c' = record c { socket = r.socket; inbound_header = header } in
      if is_error r.ec
      then record { connection = c'; value = t; ec = r.ec; length = returns (length r.bytes) }
      else receive c' t r.ec (length r.bytes) (parse_header header)

  -- `handle_read_header`, once the header has been determined and the buffer resized.
  start_data : Connection S → ℕ → ℕ → Outcome Bytes → Connection S × Outcome HeaderStep
  start_data c len size (returns buffer) =
      (record c { inbound_data = buffer }, returns (reading_data size len))
  start_data c len size (throws e) = (c, throws e)
  start_data c len size undefined = (c, undefined)

  unfoldable pub handle_read_header :
      Connection S → ErrorCode → ℕ → Connection S × Outcome HeaderStep
  unfolding start_data
  handle_read_header c ec len =
      if is_error ec then (c, returns (reported ec len)) else elim (parse_header c.inbound_header) [
        | none ↦ (c, returns (reported invalid_argument len))
        | some size ↦ start_data c len size (resize size c.inbound_data)
      ]

  -- The end of `handle_read_data`, after the data has been filtered.
  report_data : Connection S → T → ErrorCode → ℕ → Outcome Bytes → AsyncResult S T
  unfolding decoded
  report_data c t ec len (throws e) = record { connection = c; value = t; report = throws e }
  report_data c t ec len undefined = record { connection = c; value = t; report = undefined }
  report_data c t ec len (returns inbound) =
      let l = archive.load inbound t in
      record {
        connection = c;
        value = l.value;
        report = if decoded l then returns (ec, len) else throws std_exception;
      }

  unfoldable pub handle_read_data : Connection S → T → ErrorCode → ℕ → AsyncResult S T
  unfolding report_data
  handle_read_data c t ec len =
      if is_error ec
      then record { connection = c; value = t; report = returns (ec, len) }
      else report_data c t ec len (c.filter.input_filter c.inbound_data)

  -- The data transfer that `handle_read_header` starts, run to its completion handler.
  complete_header : Connection S × Outcome HeaderStep → T → AsyncResult S T
  unfolding handle_read_data
  complete_header (c, throws e) t = record { connection = c; value = t; report = throws e }
  complete_header (c, undefined) t = record { connection = c; value = t; report = undefined }
  complete_header (c, returns (reported ec len)) t = record {
    connection = c;
    value = t;
    report = returns (ec, len);
  }
  complete_header (c, returns (reading_data size len)) t =
      let r = read_impl asio c.io size c.socket in
      handle_read_data
        (record c { socket = r.socket; inbound_data = overwrite r.bytes c.inbound_data }) t r.ec
        (len + length r.bytes)

  -- `async_read`, with both of its transfers run to completion.
  pub async_read : Connection S → T → AsyncResult S T
  unfolding complete_header handle_read_header
  async_read c t =
      let r = read_impl asio c.io header_length c.socket in
      complete_header
        (handle_read_header
          (record c { socket = r.socket; inbound_header = overwrite r.bytes c.inbound_header }) r.ec
          (length r.bytes))
        t
