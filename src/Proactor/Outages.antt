-- ===== src/Proactor/Outages.antt =====
-- Why the completion of an operation of one session ends the event loop: these faults, and no
-- others.
use tcpclient_server.Prelude.{
  ℕ, ◌+◌, ◌≡◌, refl, sym, ap, ◌∙◌, inl, inr, true, false, Bytes, Option, none, some, length, ◌↔◌,
  Bool,
}
use mathlib.Core.Path.{subst}
use tcpclient_server.Errors.{
  ErrorCode, success, is_error, Exception, std_exception, Outcome, returns, throws, undefined,
  ◌>>=◌, >>=-eq-throws,
}
use tcpclient_server.Response.{Response}
use tcpclient_server.Io.{Asio}
use tcpclient_server.Connection.{
  Archive, HeaderStep, reported, reading_data, handle_read_header, handle_read_data,
}
use tcpclient_server.Connection.Raised.{
  HeaderCase, handle_read_header-HeaderCase, DataCase, handle_read_data-DataCase,
}
use tcpclient_server.Session.{
  SessionPoint, initializing, replying, receiving, SessionEvent, initialized, received, delivered,
  handle_event,
}
use tcpclient_server.Session.Throws.{handle_event_throws}
use tcpclient_server.Proactor.{
  Peer, Completion, shaken, arrived, written, start, notify, after_header, header_arrived,
  data_arrived, bytes_arrived, complete_at, complete,
}
use tcpclient_server.Proactor.Faults.{
  Faults, header_with, data_with, handshake_fails, header_too_large, data_not_filtered,
  data_not_loaded, strategy_throws, Faults-throws,
}

module _ {S C D : Type 0} (asio : Asio S) (requests : Archive C) (responses : Archive (Response D))
    (strategy : C → Outcome D) where
  notify_throws :
      (p : Peer S C D) (e : SessionEvent C) (x : Exception)
      → notify asio requests responses strategy p e ≡ throws x
      → handle_event strategy (start asio requests responses strategy p.connection) p.session e
        ≡ throws x
  unfolding notify
  notify_throws p e x h = >>=-eq-throws _ _ h

  -- A read that reports an error does not throw.
  error_told :
      (p : Peer S C D) (ec : ErrorCode) (n : ℕ) (c : C) (x : Exception)
      → is_error ec ≡ true
      → notify asio requests responses strategy p (received ec n c) ≡ throws x
      → ⊥
  error_told p ec n c x bad h =
      elim (handle_event_throws strategy _ p.session (received ec n c) x
        (notify_throws p (received ec n c) x h)) [
          | inl (code, at, same, failed, y) ↦ cc
          | inr (m, d, same, thrown) ↦
              let e : ec ≡ success = cc in let no : false ≡ true = rw e at bad in cc
        ]

  -- What the header comes to, before the session's handler is called.
  after_header-Faults :
      (p : Peer S C D) (first : Bool) (bytes : Bytes) (ec : ErrorCode) (o : Outcome HeaderStep)
      (x : Exception) (p' : Peer S C D)
      → p.session.point ≡ receiving first
      → p.inbound ≡ none
      → HeaderCase asio requests
          (record p.connection {
            inbound_header = header_with asio requests responses strategy p bytes;
          })
          ec
          (length bytes)
          o
      → after_header asio requests responses strategy p' o ≡ throws x
      → Faults asio requests responses strategy p (arrived ec bytes) x
  unfolding after_header
  after_header-Faults p first bytes ec (returns (reported ec' n)) x p' at here k h =
      absurd (error_told p' ec' n p'.cdata x k h)
  after_header-Faults p first bytes ec (returns (reading_data size n)) x p' at here k h = cc
  after_header-Faults p first bytes ec (throws y) x p' at here (fine, same, (size, e, huge)) h =
      let y_x : y ≡ x = cc in
      rw (fine, sym y_x, same) (header_too_large first bytes size at here e huge)
  after_header-Faults p first bytes ec undefined x p' at here k h = absurd k

  header_arrived-Faults :
      (p : Peer S C D) (first : Bool) (ec : ErrorCode) (bytes : Bytes) (x : Exception)
      → p.session.point ≡ receiving first
      → p.inbound ≡ none
      → header_arrived asio requests responses strategy p ec bytes ≡ throws x
      → Faults asio requests responses strategy p (arrived ec bytes) x
  unfolding header_arrived
  header_arrived-Faults p first ec bytes x at here h =
      let c = record p.connection {
        inbound_header = header_with asio requests responses strategy p bytes;
      } in
      let r = handle_read_header asio requests c ec (length bytes) in
      after_header-Faults p first bytes ec r.1 x (record p { connection = r.0 }) at here
        (handle_read_header-HeaderCase asio requests c ec (length bytes)) h

  -- What the data comes to, before the session's handler is called.
  told-Faults :
      (p : Peer S C D) (first : Bool) (size len : ℕ) (bytes : Bytes) (ec : ErrorCode)
      (o : Outcome (ErrorCode × ℕ)) (c : C) (x : Exception) (p' : Peer S C D)
      → p.session.point ≡ receiving first
      → p.inbound ≡ some (size, len)
      → DataCase asio requests
          (record p.connection {
            inbound_data = data_with asio requests responses strategy p bytes;
          })
          p.cdata
          ec
          o
          c
      → (do (ec', n) ← o; notify asio requests responses strategy p' (received ec' n c)) ≡ throws x
      → Faults asio requests responses strategy p (arrived ec bytes) x
  told-Faults p first size len bytes ec (throws y) c x p' at here (fine, inl why) h =
      let same : y ≡ x = cc in
      rw fine (data_not_filtered first size len bytes x at here (why ∙ ap throws same))
  told-Faults p first size len bytes ec (throws y) c x p' at here
        (fine, inr (s, z, got, bad, is_std)) h =
      let same : x ≡ std_exception = cc in
      rw (fine, same) (data_not_loaded first size len bytes s z at here got bad)
  told-Faults p first size len bytes ec undefined c x p' at here k h = cc
  told-Faults p first size len bytes ec (returns (ec', n)) c x p' at here (inl (bad, same)) h =
      absurd (error_told p' ec' n c x bad h)
  told-Faults p first size len bytes ec (returns (ec', n)) c x p' at here
        (inr (fine, told, (s, got, good, value))) h =
      elim (handle_event_throws strategy _ p'.session (received ec' n c) x
        (notify_throws p' (received ec' n c) x h)) [
          | inl (code, at, same, failed, y) ↦ cc
          | inr (m, d, same, thrown) ↦
              let it : c ≡ d = cc in
              rw fine (
                strategy_throws first size len bytes s x at here got good
                  (ap strategy (sym value ∙ it) ∙ thrown))
        ]

  data_arrived-Faults :
      (p : Peer S C D) (first : Bool) (size len : ℕ) (ec : ErrorCode) (bytes : Bytes)
      (x : Exception)
      → p.session.point ≡ receiving first
      → p.inbound ≡ some (size, len)
      → data_arrived asio requests responses strategy p len ec bytes ≡ throws x
      → Faults asio requests responses strategy p (arrived ec bytes) x
  unfolding data_arrived
  data_arrived-Faults p first size len ec bytes x at here h =
      let c = record p.connection {
        inbound_data = data_with asio requests responses strategy p bytes;
      } in
      let r = handle_read_data asio requests c p.cdata ec (len + length bytes) in
      told-Faults p first size len bytes ec r.report r.value x
        (record p { connection = r.connection; cdata = r.value }) at here
        (handle_read_data-DataCase asio requests c p.cdata ec (len + length bytes)) h

  bytes_arrived-Faults :
      (p : Peer S C D) (first : Bool) (inbound : Option (ℕ × ℕ)) (ec : ErrorCode) (bytes : Bytes)
      (x : Exception)
      → p.session.point ≡ receiving first
      → p.inbound ≡ inbound
      → bytes_arrived asio requests responses strategy p inbound ec bytes ≡ throws x
      → Faults asio requests responses strategy p (arrived ec bytes) x
  unfolding bytes_arrived
  bytes_arrived-Faults p first none ec bytes x at here h =
      header_arrived-Faults p first ec bytes x at here h
  bytes_arrived-Faults p first (some (size, len)) ec bytes x at here h =
      data_arrived-Faults p first size len ec bytes x at here h

  complete_at-Faults :
      (point : SessionPoint) (p : Peer S C D) (e : Completion) (x : Exception)
      → p.session.point ≡ point
      → complete_at asio requests responses strategy point p e ≡ throws x
      → Faults asio requests responses strategy p e x
  unfolding complete_at
  complete_at-Faults initializing p (shaken ec) x at h =
      elim (handle_event_throws strategy _ p.session (initialized ec) x
        (notify_throws p (initialized ec) x h)) [
          | inl (code, at', same, failed, y) ↦
              let it : ec ≡ code = cc in
              rw (y, sym it)
                (handshake_fails ec at (subst (λ c. is_error c ≡ true) (sym it) failed))
          | inr (m, d, same, thrown) ↦ cc
        ]
  complete_at-Faults (receiving first) p (arrived ec bytes) x at h =
      bytes_arrived-Faults p first p.inbound ec bytes x at refl h
  complete_at-Faults replying p (written ec n) x at h =
      elim (handle_event_throws strategy _ p.session (delivered ec n) x
        (notify_throws p (delivered ec n) x h)) [
          | inl (code, at', same, failed, y) ↦ cc
          | inr (m, d, same, thrown) ↦ cc
        ]
  complete_at-Faults _ p _ x at h = cc

  throws-Faults :
      (p : Peer S C D) (e : Completion) (x : Exception)
      → complete asio requests responses strategy p e ≡ throws x
      → Faults asio requests responses strategy p e x
  unfolding complete
  throws-Faults p e x h = complete_at-Faults p.session.point p e x refl h

  -- The completion of an operation throws out of the event loop exactly if: the handshake failed;
  -- or the header announces more than a vector can hold; or the filter throws on the data; or the
  -- archive throws on what the filter returned; or the strategy throws on the request. So every
  -- error that a transfer itself reports is survived.
  pub complete-Faults :
      (p : Peer S C D) (e : Completion) (x : Exception)
      → (complete asio requests responses strategy p e ≡ throws x)
        ↔ Faults asio requests responses strategy p e x
  complete-Faults p e x =
      (throws-Faults p e x, Faults-throws asio requests responses strategy p e x)
