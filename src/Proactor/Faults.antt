-- ===== src/Proactor/Faults.antt =====
-- When the completion of an operation of one session ends the event loop by an exception.
use tcpclient_server.Prelude.{
  ℕ, ◌+◌, ◌≡◌, refl, sym, ap, ◌∙◌, true, Bytes, Option, none, some, length, ltb, Bool,
}
use mathlib.Core.Path.{subst}
use tcpclient_server.Errors.{
  ErrorCode, success, is_error, Exception, system_error, length_error, std_exception, Outcome,
  returns, throws,
}
use tcpclient_server.Header.{parse_header}
use tcpclient_server.Response.{Response}
use tcpclient_server.Io.{Asio}
use tcpclient_server.Connection.{
  Archive, max_size, overwrite, AsyncResult, handle_read_header, handle_read_data,
}
use tcpclient_server.Connection.Raised.{
  handle_read_header_huge, handle_read_data_unfiltered, handle_read_data_unloaded,
  handle_read_data_loaded,
}
use tcpclient_server.Session.{
  SessionPoint, initializing, receiving, SessionEvent, initialized, received, handle_event,
}
use tcpclient_server.Session.Throws.{handle_event_initialized, handle_event_received}
use tcpclient_server.Proactor.{
  Peer, Completion, shaken, arrived, start, notify, after_header, header_arrived, data_arrived,
  bytes_arrived, complete_at, complete,
}

module _ {S C D : Type 0} (asio : Asio S) (requests : Archive C) (responses : Archive (Response D))
    (strategy : C → Outcome D) where
  -- The buffers of a session, once the bytes have come into them.
  abbrev pub header_with : Peer S C D → Bytes → Bytes
  header_with p bytes = overwrite bytes p.connection.inbound_header

  abbrev pub data_with : Peer S C D → Bytes → Bytes
  data_with p bytes = overwrite bytes p.connection.inbound_data

  -- The handshake fails; the header announces more than a vector can hold; the data cannot be
  -- filtered, or cannot be loaded; or the strategy throws on the request that has been loaded.
  pub data Faults (p : Peer S C D) : Completion → Exception → Type 0 where
    handshake_fails :
        (ec : ErrorCode)
        → p.session.point ≡ initializing
        → is_error ec ≡ true
        → Faults p (shaken ec) (system_error ec)
    header_too_large :
        (first : Bool) (bytes : Bytes) (size : ℕ)
        → p.session.point ≡ receiving first
        → p.inbound ≡ none
        → parse_header (header_with p bytes) ≡ some size
        → ltb max_size size ≡ true
        → Faults p (arrived success bytes) length_error
    data_not_filtered :
        (first : Bool) (size len : ℕ) (bytes : Bytes) (x : Exception)
        → p.session.point ≡ receiving first
        → p.inbound ≡ some (size, len)
        → p.connection.filter.input_filter (data_with p bytes) ≡ throws x
        → Faults p (arrived success bytes) x
    data_not_loaded :
        (first : Bool) (size len : ℕ) (bytes s : Bytes) (y : Exception)
        → p.session.point ≡ receiving first
        → p.inbound ≡ some (size, len)
        → p.connection.filter.input_filter (data_with p bytes) ≡ returns s
        → (requests.load s p.cdata).failure ≡ some y
        → Faults p (arrived success bytes) std_exception
    strategy_throws :
        (first : Bool) (size len : ℕ) (bytes s : Bytes) (x : Exception)
        → p.session.point ≡ receiving first
        → p.inbound ≡ some (size, len)
        → p.connection.filter.input_filter (data_with p bytes) ≡ returns s
        → (requests.load s p.cdata).failure ≡ none
        → strategy (requests.load s p.cdata).value ≡ throws x
        → Faults p (arrived success bytes) x

  notify-throws :
      (p : Peer S C D) (e : SessionEvent C) (x : Exception)
      → handle_event strategy (start asio requests responses strategy p.connection) p.session e
        ≡ throws x
      → notify asio requests responses strategy p e ≡ throws x
  unfolding notify
  notify-throws p e x h = rw h refl

  complete-at_point :
      (point : SessionPoint) (p : Peer S C D) (e : Completion) (x : Exception)
      → p.session.point ≡ point
      → complete_at asio requests responses strategy point p e ≡ throws x
      → complete asio requests responses strategy p e ≡ throws x
  unfolding complete
  complete-at_point point p e x at h =
      subst (λ t. complete_at asio requests responses strategy t p e ≡ throws x) (sym at) h

  complete-arrived :
      (first : Bool) (inbound : Option (ℕ × ℕ)) (p : Peer S C D) (bytes : Bytes) (x : Exception)
      → p.session.point ≡ receiving first
      → p.inbound ≡ inbound
      → bytes_arrived asio requests responses strategy p inbound success bytes ≡ throws x
      → complete asio requests responses strategy p (arrived success bytes) ≡ throws x
  unfolding complete_at
  complete-arrived first inbound p bytes x at here h =
      complete-at_point (receiving first) p (arrived success bytes) x at (
        subst (λ i. bytes_arrived asio requests responses strategy p i success bytes ≡ throws x)
          (sym here) h)

  header_arrived-throws :
      (p : Peer S C D) (bytes : Bytes) (x : Exception)
      → (handle_read_header asio requests
          (record p.connection { inbound_header = header_with p bytes })
          success
          (length bytes)).1
        ≡ throws x
      → header_arrived asio requests responses strategy p success bytes ≡ throws x
  unfolding header_arrived after_header
  header_arrived-throws p bytes x h = rw h refl

  -- The handler's part of a transfer of data.
  abbrev loading : Peer S C D → ℕ → Bytes → AsyncResult S C
  loading p len bytes =
      handle_read_data asio requests (record p.connection { inbound_data = data_with p bytes })
        p.cdata success (len + length bytes)

  data_arrived-throws :
      (p : Peer S C D) (len : ℕ) (bytes : Bytes) (x : Exception)
      → (loading p len bytes).report ≡ throws x
      → data_arrived asio requests responses strategy p len success bytes ≡ throws x
  unfolding data_arrived
  data_arrived-throws p len bytes x h = rw h refl

  strategy-throws :
      (p : Peer S C D) (first : Bool) (len n : ℕ) (bytes : Bytes) (x : Exception)
      → p.session.point ≡ receiving first
      → (loading p len bytes).report ≡ returns (success, n)
      → strategy (loading p len bytes).value ≡ throws x
      → data_arrived asio requests responses strategy p len success bytes ≡ throws x
  unfolding data_arrived
  strategy-throws p first len n bytes x at told raised =
      let r = loading p len bytes in
      rw told (
        notify-throws (record p { connection = r.connection; cdata = r.value })
          (received success n r.value) x
          (handle_event_received strategy _ p.session first n r.value x at raised))

  pub Faults-throws :
      (p : Peer S C D) (e : Completion) (x : Exception)
      → Faults p e x
      → complete asio requests responses strategy p e ≡ throws x
  unfolding complete_at bytes_arrived
  Faults-throws p e x (handshake_fails ec at bad) =
      complete-at_point initializing p (shaken ec) (system_error ec) at (
        notify-throws p (initialized ec) (system_error ec)
          (handle_event_initialized strategy _ p.session ec at bad))
  Faults-throws p e x (header_too_large first bytes size at here parsed huge) =
      complete-arrived first none p bytes length_error at here (
        header_arrived-throws p bytes length_error
          (handle_read_header_huge asio requests _ (length bytes) size parsed huge))
  Faults-throws p e x (data_not_filtered first size len bytes y at here raised) =
      complete-arrived first (some (size, len)) p bytes y at here (
        data_arrived-throws p len bytes y
          (handle_read_data_unfiltered asio requests _ p.cdata _ y raised))
  Faults-throws p e x (data_not_loaded first size len bytes s y at here got bad) =
      complete-arrived first (some (size, len)) p bytes std_exception at here (
        data_arrived-throws p len bytes std_exception
          (handle_read_data_unloaded asio requests _ p.cdata _ s y got bad))
  Faults-throws p e x (strategy_throws first size len bytes s y at here got good raised) =
      let c = record p.connection { inbound_data = data_with p bytes } in
      let (told, value) =
        handle_read_data_loaded asio requests c p.cdata (len + length bytes) s got good in
      complete-arrived first (some (size, len)) p bytes y at here (
        strategy-throws p first len (len + length bytes) bytes y at told
          (ap strategy value ∙ raised))
