-- ===== src/Connection/Arrival.antt =====
-- A message at the front of the stream, and the asynchronous read.
use tcpclient_server.Prelude.{◌+◌, ◌≡◌, ◌++◌, sym, ◌∙◌, Bytes, some, length, arith, append_assoc}
use tcpclient_server.Header.{header_length, parse_header, setw, to_hex}
use tcpclient_server.Header.Format.{format_header-some, length-format_header}
use tcpclient_server.Header.RoundTrip.{parse_header-setw}
use tcpclient_server.Filter.Laws.{IsFilter}
use tcpclient_server.Io.{Asio}
use tcpclient_server.Connection.{Archive, Connection, read, async_read}
use tcpclient_server.Connection.Stream.{
  Loads, IsStream, Fits, IsConnection, payload, wire, read_impl-read, overwrite_all,
}
use tcpclient_server.Connection.Transfers.{read-front}
use tcpclient_server.Connection.Sync.{read-Reads}
use tcpclient_server.Connection.Faults.{arrived}
use tcpclient_server.Connection.Converse.{reported_as, read-async_read}

module _ {S T : Type 0} (asio : Asio S) (archive : Archive T) (pending : S → Bytes) where
  -- The header that arrives is the one in front of the message.
  arrived-wire :
      (c : Connection S) (m : T) (rest : Bytes)
      → IsStream asio pending
      → IsConnection c
      → Fits archive c.filter m
      → pending c.socket ≡ wire archive c.filter m ++ rest
      → parse_header (arrived asio archive c) ≡ some (length (payload archive c.filter m))
  arrived-wire c m rest stream valid h e =
      let data' = payload archive c.filter m in
      let header = setw header_length (to_hex (length data')) in
      let size : length header ≡ header_length = length-format_header _ (format_header-some _ h) in
      let (ok, got, left) =
        read-front asio archive pending c.socket header_length header (data' ++ rest) stream
          (e ∙ append_assoc header data' rest) size in
      rw
        (
          read_impl-read asio c.io header_length c.socket,
          got,
          overwrite_all header c.inbound_header (valid ∙ sym size),
        )
        (parse_header-setw header_length (length data') (omega arith))

  -- The asynchronous read takes the message from the front of the stream, and reports success.
  pub async_read-Reads :
      (c : Connection S) (m old : T) (rest : Bytes)
      → Loads archive m
      → IsFilter c.filter
      → IsStream asio pending
      → IsConnection c
      → Fits archive c.filter m
      → pending c.socket ≡ wire archive c.filter m ++ rest
      → async_read asio archive c old
        ≡ reported_as asio archive
            (read asio archive c old)
            (header_length + length (payload archive c.filter m))
  async_read-Reads c m old rest law filter stream valid h e =
      let r = read-Reads asio archive pending c m old rest law filter stream valid h e in
      read-async_read asio archive c old _ _ (arrived-wire c m rest stream valid h e) r.no_error
        r.counted
