-- ===== src/Connection/Departure.antt =====
-- A message that an asynchronous write leaves to be sent, once its transfer is completed.
use tcpclient_server.Prelude.{◌≡◌, ◌++◌, refl, ◌∙◌, ap, List, [], ◌∷◌, Bytes, length, append-nil}
use tcpclient_server.Errors.{success}
use tcpclient_server.Header.{header_length, setw, to_hex}
use tcpclient_server.Header.Format.{format_header-some}
use tcpclient_server.Io.{Asio, write_impl}
use tcpclient_server.Connection.{Archive, Connection, async_write, prepare, writing}
use tcpclient_server.Connection.Stream.{IsPipe, Fits, payload, wire, write_impl-write}

module _ {S T : Type 0} (asio : Asio S) (archive : Archive T) (pending : S → Bytes) where
  abbrev pub message : Connection S → T → List Bytes
  message c t =
      let data' = payload archive c.filter t in
      setw header_length (to_hex (length data')) ∷ data' ∷ []

  -- The connection while the transfer is pending.
  abbrev pub prepared : Connection S → T → Connection S
  prepared c t =
      let data' = payload archive c.filter t in
      record c {
        outbound_header = setw header_length (to_hex (length data'));
        outbound_data = data';
      }

  pub async_write-message :
      (c : Connection S) (t : T)
      → Fits archive c.filter t
      → async_write asio archive c t ≡ (prepared c t, writing (message c t))
  unfolding async_write prepare
  async_write-message c t h = rw (format_header-some _ h, async_write) refl

  pub message-wire :
      (c : Connection S) (t : T)
      → IsPipe asio pending
      → let w = write_impl asio c.io (message c t) c.socket in
        (w.ec ≡ success) × (pending w.socket ≡ pending c.socket ++ wire archive c.filter t)
  message-wire c t pipe =
      let data' = payload archive c.filter t in
      let header = setw header_length (to_hex (length data')) in
      let (ok, len, sent) = pipe.accepts (message c t) c.socket in
      rw (write_impl-write asio c.io (message c t) c.socket)
        (ok, sent ∙ ap (λ x. pending c.socket ++ (header ++ x)) (append-nil data'))
