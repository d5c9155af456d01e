-- ===== src/Connection/Faults.antt =====
-- What the blocking `read` does with a broken header, and with a broken message.
use tcpclient_server.Prelude.{
  ℕ, ◌<◌, ◌≡◌, ◌+◌, true, Bytes, none, some, length, arith, ◌⊎◌, inl, inr, Option-cases,
}
use tcpclient_server.Errors.{
  success, invalid_argument, is_error, ErrorCode, Exception, returns, throws, length_error,
  std_exception,
}
use tcpclient_server.Header.{header_length, parse_header}
use tcpclient_server.Io.{Asio, read_impl}
use tcpclient_server.Connection.{
  Archive, Connection, max_size, resize, overwrite, read, receive, receive_data, extract, decoded,
  async_read, complete_header, handle_read_header, start_data, handle_read_data,
}
use tcpclient_server.Connection.Stream.{resize_throws}

module _ {S T : Type 0} (asio : Asio S) (archive : Archive T) where
  -- The header that the first transfer of a read leaves in the header's buffer.
  abbrev pub arrived : Connection S → Bytes
  arrived c = overwrite (read_impl asio c.io header_length c.socket).bytes c.inbound_header

  abbrev pub header_code : Connection S → ErrorCode
  header_code c = (read_impl asio c.io header_length c.socket).ec

  -- A header that arrives without an error and is no number makes `read` return 0 with no error
  -- set and its variable unchanged, while `async_read` reports `invalid_argument`.
  pub read_bad_header :
      (c : Connection S) (t : T)
      → header_code c ≡ success
      → parse_header (arrived c) ≡ none
      → ((read asio archive c t).ec ≡ success)
        × ((read asio archive c t).length ≡ returns 0)
        × ((read asio archive c t).value ≡ t)
        × ((n : ℕ) × ((async_read asio archive c t).report ≡ returns (invalid_argument, n)))
  unfolding read receive async_read complete_header handle_read_header
  read_bad_header c t ok bad = (
    ground arith,
    ground arith,
    ground arith,
    (length (read_impl asio c.io header_length c.socket).bytes, ground arith),
  )

  -- A header that stands for more bytes than a vector can hold makes both reads throw
  -- `length_error`.
  pub read_huge_header :
      (c : Connection S) (t : T) (n : ℕ)
      → header_code c ≡ success
      → parse_header (arrived c) ≡ some n
      → max_size < n
      → ((read asio archive c t).length ≡ throws length_error)
        × ((async_read asio archive c t).report ≡ throws length_error)
  unfolding read receive receive_data async_read complete_header handle_read_header start_data
  read_huge_header c t n ok parsed huge = (
    ground (arith, resize_throws n c.inbound_data huge),
    ground (arith, resize_throws n c.inbound_data huge),
  )

  -- If the data's transfer fails, `async_read` reports its code and does not look at the bytes. But
  -- `read` does not look at that code: where the filter returns something for the buffer, it loads
  -- it. If the archive loads a value from it, `read` returns that value, with the code left in
  -- `ec`; if not, it throws and leaves `invalid_argument` in the place of the code.
  pub read_interrupted :
      (c : Connection S) (t : T) (n : ℕ) (buffer inbound : Bytes)
      → header_code c ≡ success
      → parse_header (arrived c) ≡ some n
      → resize n c.inbound_data ≡ returns buffer
      → let r = read_impl asio c.io n (read_impl asio c.io header_length c.socket).socket in
        is_error r.ec ≡ true
        → c.filter.input_filter (overwrite r.bytes buffer) ≡ returns inbound
        → ((k : ℕ) × ((async_read asio archive c t).report ≡ returns (r.ec, k)))
          × ((((archive.load inbound t).failure ≡ none)
                × ((read asio archive c t).ec ≡ r.ec)
                × ((read asio archive c t).value ≡ (archive.load inbound t).value)
                × ((k : ℕ) × ((read asio archive c t).length ≡ returns k)))
              ⊎ (((e : Exception) × ((archive.load inbound t).failure ≡ some e))
                  × ((read asio archive c t).ec ≡ invalid_argument)
                  × ((read asio archive c t).length ≡ throws std_exception)))
  unfolding read receive receive_data extract decoded async_read complete_header handle_read_header
      start_data handle_read_data
  read_interrupted c t n buffer inbound ok parsed sized failed filtered =
      let r1 = read_impl asio c.io header_length c.socket in
      let r = read_impl asio c.io n r1.socket in
      let k = length r1.bytes + length r.bytes in
      (
        (k, ground arith),
        elim (Option-cases (archive.load inbound t).failure) [
          | inl loaded ↦ inl (loaded, ground arith, ground arith, (k, ground arith))
          | inr (e, broken) ↦ inr ((e, broken), ground arith, ground arith)
        ],
      )
