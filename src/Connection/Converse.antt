-- ===== src/Connection/Converse.antt =====
-- The blocking read against the asynchronous one: the other direction of the equivalence in Async.
use tcpclient_server.Prelude.{
  ℕ, ◌+◌, ◌≡◌, refl, false, Bytes, some, length, arith, inl, inr, Bool-cases, sym, ap, ◌∙◌,
}
use tcpclient_server.Errors.{
  success, is_error, ErrorCode, Outcome, returns, throws, undefined, no_error-success,
}
use tcpclient_server.Header.{header_length, parse_header}
use tcpclient_server.Io.{Asio, read_impl}
use tcpclient_server.Connection.{
  Archive, Connection, resize, overwrite, ReadResult, AsyncResult, read, receive, receive_data,
  extract, async_read, complete_header, handle_read_header, start_data, report_data,
  handle_read_data,
}
use tcpclient_server.Connection.Faults.{arrived}

module _ {S T : Type 0} (asio : Asio S) (archive : Archive T) where
  -- What an asynchronous read reports for a blocking one that returned `n`.
  abbrev pub reported_as : ReadResult S T → ℕ → AsyncResult S T
  reported_as r n = record {
    connection = r.connection;
    value = r.value;
    report = returns (success, n);
  }

  extract-report :
      (c : Connection S) (t : T) (ec : ErrorCode) (len n : ℕ) (o : Outcome Bytes)
      → (extract asio archive c t ec len o).ec ≡ success
      → (extract asio archive c t ec len o).length ≡ returns n
      → (ec ≡ success)
        × (report_data asio archive c t ec len o
            ≡ reported_as (extract asio archive c t ec len o) n)
  unfolding extract report_data
  extract-report c t ec len n (throws e) h k = cc
  extract-report c t ec len n undefined h k = cc
  extract-report c t ec len n (returns s) h k = ground arith

  receive_data-complete_header :
      (c : Connection S) (t : T) (len size n : ℕ) (o : Outcome Bytes)
      → (receive_data asio archive c t success len size o).ec ≡ success
      → (receive_data asio archive c t success len size o).length ≡ returns n
      → complete_header asio archive (start_data asio archive c len size o) t
        ≡ reported_as (receive_data asio archive c t success len size o) n
  unfolding receive_data complete_header start_data handle_read_data
  receive_data-complete_header c t len size n (throws e) h k = cc
  receive_data-complete_header c t len size n undefined h k = cc
  receive_data-complete_header c t len size n (returns buffer) h k =
      let r = read_impl asio c.io size c.socket in
      let c' = record c { socket = r.socket; inbound_data = overwrite r.bytes buffer } in
      let (fine, same) =
        extract-report c' t r.ec (len + length r.bytes) n
          (c.filter.input_filter (overwrite r.bytes buffer)) h k in
      let ok : is_error r.ec ≡ false = ap is_error fine in rw ok same

  receive-complete_header :
      (c : Connection S) (t : T) (len size n : ℕ)
      → parse_header c.inbound_header ≡ some size
      → (receive asio archive c t success len (some size)).ec ≡ success
      → (receive asio archive c t success len (some size)).length ≡ returns n
      → complete_header asio archive (handle_read_header asio archive c success len) t
        ≡ reported_as (receive asio archive c t success len (some size)) n
  unfolding receive handle_read_header
  receive-complete_header c t len size n parsed h k =
      rw parsed (receive_data-complete_header c t len size n (resize size c.inbound_data) h k)

  read-code :
      (c : Connection S) (t : T)
      → (read asio archive c t).ec ≡ success
      → (read_impl asio c.io header_length c.socket).ec ≡ success
  unfolding read
  read-code c t h = elim (Bool-cases (is_error (read_impl asio c.io header_length c.socket).ec)) [
    | inl bad ↦ rw bad at h
    | inr ok ↦ no_error-success (read_impl asio c.io header_length c.socket).ec ok
  ]

  read-receive_eq :
      (c : Connection S) (t : T) (size : ℕ)
      → (read_impl asio c.io header_length c.socket).ec ≡ success
      → parse_header (arrived asio archive c) ≡ some size
      → let r = read_impl asio c.io header_length c.socket in
        read asio archive c t
        ≡ receive asio archive
            (record c { socket = r.socket; inbound_header = arrived asio archive c })
            t
            success
            (length r.bytes)
            (some size)
  unfolding read
  read-receive_eq c t size e parsed = rw (e, parsed) refl

  -- A blocking read that returns without an error, behind a header that is a number, is matched
  -- by the asynchronous one: it reports success with the same number of bytes, and leaves
  -- the same connection and the same value.
  pub read-async_read :
      (c : Connection S) (t : T) (n size : ℕ)
      → parse_header (arrived asio archive c) ≡ some size
      → (read asio archive c t).ec ≡ success
      → (read asio archive c t).length ≡ returns n
      → async_read asio archive c t ≡ reported_as (read asio archive c t) n
  unfolding async_read
  read-async_read c t n size parsed h k =
      let r = read_impl asio c.io header_length c.socket in
      let c' = record c { socket = r.socket; inbound_header = arrived asio archive c } in
      let e = read-code c t h in
      let same = read-receive_eq c t size e parsed in
      rw e
        (receive-complete_header c' t (length r.bytes) size n parsed (rw same at h) (rw same at k))
      ∙ ap (λ x. reported_as x n) (sym same)
