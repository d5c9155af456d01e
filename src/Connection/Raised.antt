-- ===== src/Connection/Raised.antt =====
-- What the handlers of an asynchronous read report, and when they throw.
use tcpclient_server.Connection.Stream.{length-resized, resize_lem}
use tcpclient_server.Prelude.{
  length, ap, ◌≤◌, ◌∙◌, ℕ, ◌≡◌, refl, ◌⊎◌, inl, inr, true, Bytes, none, some, ltb, Bool-cases,
  Option-cases,
}
use tcpclient_server.Errors.{
  ErrorCode, success, invalid_argument, is_error, Exception, length_error, std_exception, Outcome,
  returns, throws, undefined, no_error-success,
}
use tcpclient_server.Header.{parse_header}
use tcpclient_server.Io.{Asio}
use tcpclient_server.Connection.{
  Archive, Connection, HeaderStep, reported, reading_data, max_size, resize, decoded, start_data,
  handle_read_header, report_data, handle_read_data,
}

module _ {S T : Type 0} (asio : Asio S) (archive : Archive T) where
  -- What becomes of a header: an error is reported, or the data is read next, or the size is more
  -- than a vector can hold.
  abbrev pub HeaderCase : Connection S → ErrorCode → ℕ → Outcome HeaderStep → Type 0
  HeaderCase c ec len (returns (reported ec' n)) = is_error ec' ≡ true
  HeaderCase c ec len (returns (reading_data size n)) =
      (ec ≡ success) × (parse_header c.inbound_header ≡ some size) × (n ≡ len)
  HeaderCase c ec len (throws x) =
      (ec ≡ success)
      × (x ≡ length_error)
      × ((size : ℕ) × (parse_header c.inbound_header ≡ some size) × (ltb max_size size ≡ true))
  HeaderCase c ec len undefined = ⊥

  start_data-HeaderCase :
      (c : Connection S) (len size : ℕ)
      → parse_header c.inbound_header ≡ some size
      → HeaderCase c success len (start_data asio archive c len size (resize size c.inbound_data)).1
  unfolding start_data resize
  start_data-HeaderCase c len size e = elim (Bool-cases (ltb max_size size)) [
    | inl huge ↦ rw (huge, start_data) (refl, refl, (size, e, huge))
    | inr fits ↦ rw (fits, start_data) (refl, e, refl)
  ]

  pub handle_read_header-HeaderCase :
      (c : Connection S) (ec : ErrorCode) (len : ℕ)
      → HeaderCase c ec len (handle_read_header asio archive c ec len).1
  unfolding handle_read_header
  handle_read_header-HeaderCase c ec len = elim (Bool-cases (is_error ec)) [
    | inl bad ↦ rw bad bad
    | inr fine ↦ elim (Option-cases (parse_header c.inbound_header)) [
      | inl bad ↦ rw (fine, bad) refl
      | inr (size, e) ↦ rw (fine, e, no_error-success ec fine) (start_data-HeaderCase c len size e)
    ]
  ]

  -- What becomes of the data: an error of the transfer is reported, or the request is decoded and
  -- reported with success, or the filter throws, or the archive does.
  abbrev pub DataCase : Connection S → T → ErrorCode → Outcome (ErrorCode × ℕ) → T → Type 0
  DataCase c t ec (returns (ec', n)) value =
      ((is_error ec' ≡ true) × (value ≡ t))
      ⊎ ((ec ≡ success)
          × (ec' ≡ success)
          × ((s : Bytes) × (c.filter.input_filter c.inbound_data ≡ returns s)
              × ((archive.load s t).failure ≡ none)
              × (value ≡ (archive.load s t).value)))
  DataCase c t ec (throws x) value =
      (ec ≡ success)
      × ((c.filter.input_filter c.inbound_data ≡ throws x)
          ⊎ ((s : Bytes) × (y : Exception) × (c.filter.input_filter c.inbound_data ≡ returns s)
              × ((archive.load s t).failure ≡ some y)
              × (x ≡ std_exception)))
  DataCase c t ec undefined value = c.filter.input_filter c.inbound_data ≡ undefined

  report_data-DataCase :
      (c : Connection S) (t : T) (len : ℕ) (o : Outcome Bytes)
      → c.filter.input_filter c.inbound_data ≡ o
      → let r = report_data asio archive c t success len o in DataCase c t success r.report r.value
  unfolding report_data
  report_data-DataCase c t len (throws x) e = (refl, inl e)
  report_data-DataCase c t len undefined e = e
  report_data-DataCase c t len (returns s) e = elim (Option-cases (archive.load s t).failure) [
    | inl good ↦ unfold decoded in rw (good, decoded) (inr (refl, refl, (s, e, good, refl)))
    | inr (y, bad) ↦ unfold decoded in rw (bad, decoded) (refl, inr (s, y, e, bad, refl))
  ]

  pub handle_read_data-DataCase :
      (c : Connection S) (t : T) (ec : ErrorCode) (len : ℕ)
      → let r = handle_read_data asio archive c t ec len in DataCase c t ec r.report r.value
  unfolding handle_read_data
  handle_read_data-DataCase c t ec len = elim (Bool-cases (is_error ec)) [
    | inl bad ↦ rw bad (inl (bad, refl))
    | inr fine ↦
        rw (fine, no_error-success ec fine)
          (report_data-DataCase c t len (c.filter.input_filter c.inbound_data) refl)
  ]

  -- A header that announces more than a vector can hold throws.
  pub handle_read_header_huge :
      (c : Connection S) (len size : ℕ)
      → parse_header c.inbound_header ≡ some size
      → ltb max_size size ≡ true
      → (handle_read_header asio archive c success len).1 ≡ throws length_error
  unfolding handle_read_header start_data resize
  handle_read_header_huge c len size e huge = rw (e, huge) refl

  -- Data that the filter throws on throws that exception.
  pub handle_read_data_unfiltered :
      (c : Connection S) (t : T) (len : ℕ) (x : Exception)
      → c.filter.input_filter c.inbound_data ≡ throws x
      → (handle_read_data asio archive c t success len).report ≡ throws x
  unfolding handle_read_data report_data
  handle_read_data_unfiltered c t len x e = rw e refl

  -- Data that the archive throws on throws a copy of that exception.
  pub handle_read_data_unloaded :
      (c : Connection S) (t : T) (len : ℕ) (s : Bytes) (y : Exception)
      → c.filter.input_filter c.inbound_data ≡ returns s
      → (archive.load s t).failure ≡ some y
      → (handle_read_data asio archive c t success len).report ≡ throws std_exception
  unfolding handle_read_data report_data decoded
  handle_read_data_unloaded c t len s y e bad = rw (e, bad) refl

  -- Data that is loaded is reported with success, with the value of the archive.
  pub handle_read_data_loaded :
      (c : Connection S) (t : T) (len : ℕ) (s : Bytes)
      → c.filter.input_filter c.inbound_data ≡ returns s
      → (archive.load s t).failure ≡ none
      → ((handle_read_data asio archive c t success len).report ≡ returns (success, len))
        × ((handle_read_data asio archive c t success len).value ≡ (archive.load s t).value)
  unfolding handle_read_data report_data decoded
  handle_read_data_loaded c t len s e good = (rw (e, good) refl, rw e refl)

  -- A connection whose buffer for data has the size that the header has.
  abbrev pub IsSized : Connection S → ℕ → Type 0
  IsSized c size = (parse_header c.inbound_header ≡ some size) × (length c.inbound_data ≡ size)

  start_data-IsSized :
      (c : Connection S) (len size size' n : ℕ)
      → let r = start_data asio archive c len size (resize size c.inbound_data) in
        parse_header c.inbound_header ≡ some size
        → r.1 ≡ returns (reading_data size' n)
        → IsSized r.0 size'
  unfolding start_data resize
  start_data-IsSized c len size size' n e h = elim (Bool-cases (ltb max_size size)) [
    | inl huge ↦
        let no : throws length_error ≡ returns (reading_data size' n) =
          rw (huge, start_data) at h in
        cc
    | inr fits ↦
        let same : returns (reading_data size len) ≡ returns (reading_data size' n) =
          rw (fits, start_data) at h in
        let it : size ≡ size' = cc in
        rw (fits, start_data) (e ∙ ap some it, length-resized size c.inbound_data ∙ it)
  ]

  -- A header that is a number leaves a buffer of that size to be filled.
  pub handle_read_header-IsSized :
      (c : Connection S) (ec : ErrorCode) (len size n : ℕ)
      → let r = handle_read_header asio archive c ec len in
        r.1 ≡ returns (reading_data size n) → IsSized r.0 size
  unfolding handle_read_header
  handle_read_header-IsSized c ec len size n h = elim (Bool-cases (is_error ec)) [
    | inl bad ↦
        let no : returns (reported ec len) ≡ returns (reading_data size n) =
          rw (bad, handle_read_header) at h in
        cc
    | inr fine ↦ elim (Option-cases (parse_header c.inbound_header)) [
      | inl e ↦
          let no : returns (reported invalid_argument len) ≡ returns (reading_data size n) =
            rw (fine, handle_read_header, e) at h in
          cc
      | inr (size', e) ↦
          rw (fine, handle_read_header, e)
            (start_data-IsSized c len size' size n e (rw (fine, handle_read_header, e) at h))
    ]
  ]

  -- A header whose size fits is followed by a transfer into a buffer of that size.
  pub handle_read_header_sized :
      (c : Connection S) (len size : ℕ)
      → parse_header c.inbound_header ≡ some size
      → size ≤ max_size
      → (buffer : Bytes) × (handle_read_header asio archive c success len
          ≡ (record c { inbound_data = buffer }, returns (reading_data size len)))
        × (length buffer ≡ size)
  unfolding handle_read_header start_data
  handle_read_header_sized c len size e fits =
      let (buffer, made, sized) = resize_lem size c.inbound_data fits in
      (buffer, rw (handle_read_header, e, made, start_data) refl, sized)

  -- What handling data that is loaded comes to.
  pub handle_read_data_lem :
      (c : Connection S) (t t' : T) (len : ℕ) (s : Bytes)
      → c.filter.input_filter c.inbound_data ≡ returns s
      → archive.load s t ≡ record { value = t'; failure = none }
      → handle_read_data asio archive c t success len
        ≡ record { connection = c; value = t'; report = returns (success, len) }
  unfolding handle_read_data report_data decoded
  handle_read_data_lem c t t' len s got loaded = rw (got, loaded) refl
