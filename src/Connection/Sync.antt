-- ===== src/Connection/Sync.antt =====
-- The blocking `write` and `read` over a reliable stream.
use tcpclient_server.Prelude.{
  ℕ, ◌+◌, ◌≡◌, refl, ap, ◌∙◌, [], ◌∷◌, ◌++◌, Bytes, some, length, arith, length-append,
  append_assoc, append-nil,
}
use tcpclient_server.Errors.{success, ErrorCode, returns}
use tcpclient_server.Header.{header_length, to_hex, setw, parse_header}
use tcpclient_server.Header.Format.{format_header-some, length-format_header}
use tcpclient_server.Header.RoundTrip.{parse_header-setw}
use tcpclient_server.Filter.Laws.{IsFilter}
use tcpclient_server.Io.{Asio}
use tcpclient_server.Connection.{Archive, Connection, ReadResult, WriteResult, prepare, write, read}
use tcpclient_server.Connection.Stream.{
  Loads, IsStream, IsPipe, Fits, IsConnection, payload, wire, write_impl-write,
}
use tcpclient_server.Connection.Transfers.{read-receive, receive-payload}

module _ {S T : Type 0} (asio : Asio S) (archive : Archive T) (pending : S → Bytes) where
  -- What it means that a `read` got the message `t` and left `rest` on the stream.
  pub record Reads (c : Connection S) (t : T) (rest : Bytes) (r : ReadResult S T) : Type 0 where
    pub value_read : r.value ≡ t
    pub no_error : r.ec ≡ success
    pub counted : r.length ≡ returns (header_length + length (payload archive c.filter t))
    pub left : pending r.connection.socket ≡ rest
    pub same_filter : r.connection.filter ≡ c.filter
    pub same_io : r.connection.io ≡ c.io
    pub valid : IsConnection r.connection

  -- What it means that a `write` put the message `t` on the stream.
  pub record Writes (c : Connection S) (t : T) (r : WriteResult S) : Type 0 where
    pub no_error : r.ec ≡ success
    pub counted : r.length ≡ header_length + length (payload archive c.filter t)
    pub sent : pending r.connection.socket ≡ pending c.socket ++ wire archive c.filter t
    pub same_filter : r.connection.filter ≡ c.filter
    pub same_io : r.connection.io ≡ c.io
    pub kept : r.connection.inbound_header ≡ c.inbound_header

  length-header :
      (c : Connection S) (t : T)
      → Fits archive c.filter t
      → length (setw header_length (to_hex (length (payload archive c.filter t)))) ≡ header_length
  length-header c t h = length-format_header _ (format_header-some _ h)

  header_of : Connection S → T → Bytes
  header_of c t = setw header_length (to_hex (length (payload archive c.filter t)))

  write-eq :
      (c : Connection S) (t : T) (ec : ErrorCode)
      → Fits archive c.filter t
      → let data' = payload archive c.filter t in
        let w = asio.write (header_of c t ∷ data' ∷ []) c.socket in
        write asio archive c t ec ≡ record {
          connection = record c {
            socket = w.socket;
            outbound_header = header_of c t;
            outbound_data = data';
          };
          ec = w.ec;
          length = w.length;
        }
  unfolding write prepare header_of
  write-eq c t ec h =
      rw (format_header-some _ h, write)
        (rw (write_impl-write asio c.io (header_of c t ∷ payload archive c.filter t ∷ []) c.socket))

  -- Over a pipe, a message that fits is sent whole, behind its header, and the length returned is
  -- the number of bytes sent.
  pub write-Writes :
      (c : Connection S) (t : T) (ec : ErrorCode)
      → IsPipe asio pending
      → Fits archive c.filter t
      → Writes c t (write asio archive c t ec)
  unfolding header_of
  write-Writes c t ec pipe h =
      let data' = payload archive c.filter t in
      let (ok, len, sent) = pipe.accepts (header_of c t ∷ data' ∷ []) c.socket in
      rw (write-eq c t ec h) (record {
        no_error = ok;
        counted =
            len
            ∙ omega (
              arith,
              length-append {A = ℕ} (header_of c t) (data' ++ []),
              length-append {A = ℕ} data' [],
              length-header c t h,
            );
        sent = sent ∙ ap (λ x. pending c.socket ++ (header_of c t ++ x)) (append-nil data');
        same_filter = refl;
        same_io = refl;
        kept = refl;
      })

  -- If a message that fits is at the front of the stream, a `read` returns it without an error,
  -- reports the number of its bytes, and leaves the rest of the stream and a connection as good
  -- as before, whatever the buffers and the variable held.
  pub read-Reads :
      (c : Connection S) (m old : T) (rest : Bytes)
      → Loads archive m
      → IsFilter c.filter
      → IsStream asio pending
      → IsConnection c
      → Fits archive c.filter m
      → pending c.socket ≡ wire archive c.filter m ++ rest
      → Reads c m rest (read asio archive c old)
  unfolding header_of
  read-Reads c m old rest law filter stream valid h e =
      let data' = payload archive c.filter m in
      let (s, got, behind) =
        read-receive asio archive pending c old (header_of c m) (data' ++ rest) stream valid
          (length-header c m h) (e ∙ append_assoc (header_of c m) data' rest) in
      let (s', done, left) =
        receive-payload asio archive pending
          (record c { socket = s; inbound_header = header_of c m }) m old rest law filter stream h
          behind in
      let parsed : parse_header (header_of c m) ≡ some (length data') =
        parse_header-setw header_length (length data') (omega arith) in
      rw (got, parsed, done)
        (record {
          value_read = refl;
          no_error = refl;
          counted = refl;
          left = left;
          same_filter = refl;
          same_io = refl;
          valid = length-header c m h;
        })
