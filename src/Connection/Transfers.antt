-- ===== src/Connection/Transfers.antt =====
-- The two transfers of a blocking `read`, one behind the other, over a reliable stream.
use tcpclient_server.Prelude.{
  ℕ, ◌+◌, ◌≤◌, ◌≡◌, refl, sym, ◌∙◌, ◌++◌, Bytes, some, length, arith, length-append, take-append,
  drop-append,
}
use tcpclient_server.Errors.{success, ErrorCode, returns}
use tcpclient_server.Header.{header_length, parse_header}
use tcpclient_server.Filter.Laws.{IsFilter}
use tcpclient_server.Io.{Asio}
use tcpclient_server.Connection.{Archive, Connection, read, receive, receive_data, extract, decoded}
use tcpclient_server.Connection.Stream.{
  Loads, IsStream, Fits, IsConnection, payload, read_impl-read, resize_lem, overwrite_all,
}

module _ {S T : Type 0} (asio : Asio S) (archive : Archive T) (pending : S → Bytes) where
  -- Reading a buffer of `n` bytes from a stream that begins with as many.
  pub read-front :
      (s : S) (n : ℕ) (front rest : Bytes)
      → IsStream asio pending
      → pending s ≡ front ++ rest
      → length front ≡ n
      → ((asio.read n s).ec ≡ success)
        × ((asio.read n s).bytes ≡ front)
        × (pending (asio.read n s).socket ≡ rest)
  read-front s n front rest stream e len =
      let fits : n ≤ length (pending s) = rw e (omega (arith, length-append front rest)) in
      let (ok, got, left) = stream.delivers n s fits in
      (
        ok,
        got ∙ (rw e (take-append front rest n len)),
        left ∙ (rw e (drop-append front rest n len)),
      )

  extract-save :
      (c : Connection S) (m old : T) (len : ℕ)
      → Loads archive m
      → IsFilter c.filter
      → extract asio archive c old success len (c.filter.input_filter (payload archive c.filter m))
        ≡ record { connection = c; value = m; ec = success; length = returns len }
  unfolding extract decoded
  extract-save c m old len law filter =
      rw (filter.through (archive.save m) law.signed, extract) (rw (law.again old))

  receive_data-payload :
      (c : Connection S) (m old : T) (ec : ErrorCode) (len : ℕ) (buffer rest : Bytes)
      → Loads archive m
      → IsFilter c.filter
      → IsStream asio pending
      → pending c.socket ≡ payload archive c.filter m ++ rest
      → length buffer ≡ length (payload archive c.filter m)
      → (s : S) × (receive_data asio archive c old ec len
            (length (payload archive c.filter m))
            (returns buffer)
          ≡ record {
            connection = record c { socket = s; inbound_data = payload archive c.filter m };
            value = m;
            ec = success;
            length = returns (len + length (payload archive c.filter m));
          })
        × (pending s ≡ rest)
  unfolding receive_data
  receive_data-payload c m old ec len buffer rest law filter stream e size =
      let data' = payload archive c.filter m in
      let (ok, got, left) = read-front c.socket (length data') data' rest stream e refl in
      (
        (asio.read (length data') c.socket).socket,
        rw
            (
              read_impl-read asio c.io (length data') c.socket,
              ok,
              got,
              overwrite_all data' buffer size,
            )
            (extract-save _ m old (len + length data') law filter),
        left,
      )

  -- A `read` whose header has arrived goes on with the size that the header stands for.
  pub read-receive :
      (c : Connection S) (old : T) (header rest : Bytes)
      → IsStream asio pending
      → IsConnection c
      → length header ≡ header_length
      → pending c.socket ≡ header ++ rest
      → (s : S) × (read asio archive c old
          ≡ receive asio archive
              (record c { socket = s; inbound_header = header })
              old
              success
              header_length
              (parse_header header))
        × (pending s ≡ rest)
  unfolding read
  read-receive c old header rest stream valid size e =
      let (ok, got, left) = read-front c.socket header_length header rest stream e size in
      (
        (asio.read header_length c.socket).socket,
        rw
            (
              read_impl-read asio c.io header_length c.socket,
              ok,
              got,
              overwrite_all header c.inbound_header (valid ∙ sym size),
              size,
            )
            refl,
        left,
      )

  pub receive-payload :
      (c : Connection S) (m old : T) (rest : Bytes)
      → Loads archive m
      → IsFilter c.filter
      → IsStream asio pending
      → Fits archive c.filter m
      → pending c.socket ≡ payload archive c.filter m ++ rest
      → (s : S) × (receive asio archive c old success header_length
            (some (length (payload archive c.filter m)))
          ≡ record {
            connection = record c { socket = s; inbound_data = payload archive c.filter m };
            value = m;
            ec = success;
            length = returns (header_length + length (payload archive c.filter m));
          })
        × (pending s ≡ rest)
  unfolding receive
  receive-payload c m old rest law filter stream h e =
      let size = length (payload archive c.filter m) in
      let (buffer, made, full) = resize_lem size c.inbound_data (omega arith) in
      let (s, done, left) =
        receive_data-payload c m old success header_length buffer rest law filter stream e full in
      (s, rw made done, left)
