-- ===== src/Connection/Kept.antt =====
-- What the asynchronous operations leave of a connection, and on what a write depends.
use tcpclient_server.Prelude.{
  ℕ, ◌≡◌, refl, [], ◌∷◌, none, some, length, arith, List, Bytes, inl, inr, Option-cases,
}
use tcpclient_server.Errors.{ErrorCode, invalid_argument}
use tcpclient_server.Header.{header_length, format_header}
use tcpclient_server.Filter.{Filter}
use tcpclient_server.Io.{Asio}
use tcpclient_server.Connection.{
  Archive, Connection, WriteStart, called, writing, prepare, async_write, start_data,
  handle_read_header, report_data, handle_read_data,
}

module _ {S T : Type 0} (asio : Asio S) (archive : Archive T) where
  -- How a write starts depends on the filter of the connection only.
  abbrev pub start_with : Filter → T → WriteStart
  start_with f t =
      let bytes = f.output_filter (archive.save t) in
      elim (format_header (length bytes)) [
        | none ↦ called invalid_argument header_length
        | some h ↦ writing (h ∷ bytes ∷ [])
      ]

  pub async_write-start_with :
      (c : Connection S) (t : T) → (async_write asio archive c t).1 ≡ start_with c.filter t
  unfolding async_write prepare
  async_write-start_with c t =
      elim (Option-cases (format_header (length (c.filter.output_filter (archive.save t))))) [
        | inl e ↦ rw (e, async_write, start_with) refl
        | inr (h, e) ↦ rw (e, async_write, start_with) refl
      ]

  -- Same strategies.
  abbrev pub SameStrategies : Connection S → Connection S → Type 0
  SameStrategies c c' = (c'.filter ≡ c.filter) × (c'.io ≡ c.io)

  pub async_write-SameStrategies :
      (c : Connection S) (t : T) → SameStrategies c (async_write asio archive c t).0
  unfolding async_write prepare
  async_write-SameStrategies c t = ground arith

  pub handle_read_header-SameStrategies :
      (c : Connection S) (ec : ErrorCode) (len : ℕ)
      → SameStrategies c (handle_read_header asio archive c ec len).0
  unfolding handle_read_header start_data
  handle_read_header-SameStrategies c ec len = ground arith

  pub handle_read_data-SameStrategies :
      (c : Connection S) (t : T) (ec : ErrorCode) (len : ℕ)
      → SameStrategies c (handle_read_data asio archive c t ec len).connection
  unfolding handle_read_data report_data
  handle_read_data-SameStrategies c t ec len = ground arith

  -- A write that is pending sends what the buffers of the connection hold.
  pub async_write-buffers :
      (c : Connection S) (t : T) (bs : List Bytes)
      → (async_write asio archive c t).1 ≡ writing bs
      → let c' = (async_write asio archive c t).0 in bs ≡ c'.outbound_header ∷ c'.outbound_data ∷ []
  unfolding async_write prepare
  async_write-buffers c t bs h =
      elim (Option-cases (format_header (length (c.filter.output_filter (archive.save t))))) [
        | inl e ↦
            let no : called invalid_argument header_length ≡ writing bs =
              rw (e, async_write) at h in
            cc
        | inr (k, e) ↦
            let same : writing (k ∷ c.filter.output_filter (archive.save t) ∷ []) ≡ writing bs =
              rw (e, async_write) at h in
            rw (e, async_write) cc
      ]
