-- ===== src/Connection/Async.antt =====
-- The asynchronous operations against the blocking ones.
use tcpclient_server.Prelude.{
  ℕ, ◌+◌, ◌≡◌, ◌≢◌, refl, true, [], ◌∷◌, Bytes, Option, none, some, length, arith, ◌⊎◌, inl, inr,
  Option-cases, Bool-cases,
}
use tcpclient_server.Errors.{
  success, invalid_argument, is_error, ErrorCode, Outcome, returns, throws, undefined,
  no_error-success,
}
use tcpclient_server.Header.{header_length, parse_header, format_header}
use tcpclient_server.Io.{Asio, read_impl, write_impl}
use tcpclient_server.Connection.{
  Archive, Connection, resize, overwrite, ReadResult, AsyncResult, read, receive, receive_data,
  extract, async_read, complete_header, handle_read_header, start_data, report_data,
  handle_read_data, write, async_write, prepare, called, writing,
}
use tcpclient_server.Connection.Stream.{payload}

module _ {S T : Type 0} (asio : Asio S) (archive : Archive T) where
  -- A read of `n` bytes without an error, as the blocking call returns it.
  abbrev pub succeeded : AsyncResult S T → ℕ → ReadResult S T
  succeeded a n = record {
    connection = a.connection;
    value = a.value;
    ec = success;
    length = returns n;
  }

  report-extract :
      (c : Connection S) (t : T) (len n : ℕ) (o : Outcome Bytes)
      → (report_data asio archive c t success len o).report ≡ returns (success, n)
      → extract asio archive c t success len o
        ≡ succeeded (report_data asio archive c t success len o) n
  unfolding report_data extract
  report-extract c t len n (throws e) h = ground arith
  report-extract c t len n undefined h = ground arith
  report-extract c t len n (returns s) h = ground arith

  data-receive :
      (c : Connection S) (t : T) (len size n : ℕ) (o : Outcome Bytes)
      → (complete_header asio archive (start_data asio archive c len size o) t).report
        ≡ returns (success, n)
      → receive_data asio archive c t success len size o
        ≡ succeeded (complete_header asio archive (start_data asio archive c len size o) t) n
  unfolding receive_data complete_header start_data handle_read_data
  data-receive c t len size n (throws e) h = ground arith
  data-receive c t len size n undefined h = ground arith
  data-receive c t len size n (returns buffer) h =
      let r = read_impl asio c.io size c.socket in
      let c' = record c { socket = r.socket; inbound_data = overwrite r.bytes buffer } in
      ground (
        arith,
        report-extract c' t (len + length r.bytes) n
            (c.filter.input_filter (overwrite r.bytes buffer)),
      )

  failed-report :
      (c : Connection S) (t : T) (ec : ErrorCode) (len n : ℕ)
      → is_error ec ≡ true
      → (complete_header asio archive (handle_read_header asio archive c ec len) t).report
        ≢ returns (success, n)
  unfolding complete_header handle_read_header
  failed-report c t ec len n bad h = ground arith

  header-receive :
      (c : Connection S) (t : T) (len n : ℕ) (size : Option ℕ)
      → parse_header c.inbound_header ≡ size
      → (complete_header asio archive (handle_read_header asio archive c success len) t).report
        ≡ returns (success, n)
      → receive asio archive c t success len size
        ≡ succeeded
            (complete_header asio archive (handle_read_header asio archive c success len) t)
            n
  unfolding receive handle_read_header
  header-receive c t len n none e h = unfold complete_header in ground arith
  header-receive c t len n (some size) e h =
      ground (arith, data-receive c t len size n (resize size c.inbound_data))

  -- An asynchronous read that reports success leaves what the blocking read would have: the same
  -- connection, the same value, the same number of bytes, and no error.
  pub async_read-read :
      (c : Connection S) (t : T) (n : ℕ)
      → (async_read asio archive c t).report ≡ returns (success, n)
      → read asio archive c t ≡ succeeded (async_read asio archive c t) n
  unfolding async_read read
  async_read-read c t n h =
      let r = read_impl asio c.io header_length c.socket in
      let header = overwrite r.bytes c.inbound_header in
      let c' = record c { socket = r.socket; inbound_header = header } in
      elim (Bool-cases (is_error r.ec)) [
        | inl bad ↦ absurd (failed-report c' t r.ec (length r.bytes) n bad h)
        | inr ok ↦
            let e = no_error-success r.ec ok in
            rw (e) (header-receive c' t (length r.bytes) n (parse_header header) refl (rw e at h))
      ]

  -- Both writes send the same buffers, or neither sends anything and both report
  -- `invalid_argument`, if the data has no header.
  pub write-async_write :
      (c : Connection S) (t : T) (ec : ErrorCode)
      → let data' = payload archive c.filter t in
        let w = write asio archive c t ec in
        let a = async_write asio archive c t in
        ((format_header (length data') ≡ none)
          × (a.1 ≡ called invalid_argument header_length)
          × (w.ec ≡ invalid_argument)
          × (w.connection.socket ≡ c.socket))
        ⊎ ((h : Bytes) × (format_header (length data') ≡ some h)
            × (a.1 ≡ writing (h ∷ data' ∷ []))
            × (w.ec ≡ (write_impl asio c.io (h ∷ data' ∷ []) c.socket).ec)
            × (w.length ≡ (write_impl asio c.io (h ∷ data' ∷ []) c.socket).length)
            × (w.connection.socket ≡ (write_impl asio c.io (h ∷ data' ∷ []) c.socket).socket))
  unfolding write async_write prepare
  write-async_write c t ec =
      elim (Option-cases (format_header (length (payload archive c.filter t)))) [
        | inl e ↦ inl (e, rw (e, async_write), rw (e, write), rw (e, write))
        | inr (h, e) ↦ inr (h, e, rw (e, async_write), rw (e, write), rw (e, write), rw (e, write))
      ]
