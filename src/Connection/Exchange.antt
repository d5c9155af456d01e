-- ===== src/Connection/Exchange.antt =====
-- A conversation over a pipe: messages that are written one after the other are read in that order.
use tcpclient_server.Prelude.{
  ℕ, zero, suc, ◌≡◌, refl, sym, ap, ◌∙◌, List, [], ◌∷◌, ◌++◌, map, Bytes, length, append_assoc,
  append-nil,
}
use tcpclient_server.Errors.{success, ErrorCode}
use tcpclient_server.Filter.{Filter}
use tcpclient_server.Filter.Laws.{IsFilter}
use tcpclient_server.Io.{Asio}
use tcpclient_server.Connection.{Archive, Connection, write, read}
use tcpclient_server.Connection.Stream.{
  IsArchive, IsArchive-Loads, IsPipe, wire, Fits, IsConnection,
}
use tcpclient_server.Connection.Sync.{write-Writes, read-Reads}

module _ {S T : Type 0} (asio : Asio S) (archive : Archive T) where
  pub write_all : Connection S → List T → Connection S
  write_all c [] = c
  write_all c (t ∷ ts) = write_all (write asio archive c t success).connection ts

  -- As many reads as there are numbers to count, each into a variable that held `old`.
  pub read_all : Connection S → T → ℕ → List (T × ErrorCode)
  read_all c old zero = []
  read_all c old (suc n) =
      let r = read asio archive c old in (r.value, r.ec) ∷ read_all r.connection old n

  abbrev pub AllFit : Filter → List T → Type 0
  AllFit f [] = Unit
  AllFit f (t ∷ ts) = Fits archive f t × AllFit f ts

  abbrev wires : Filter → List T → Bytes
  wires f [] = []
  wires f (t ∷ ts) = wire archive f t ++ wires f ts

  module _ (pending : S → Bytes) (pipe : IsPipe asio pending) where
    write_all-wires :
        (f : Filter) (c : Connection S) (ts : List T)
        → c.filter ≡ f
        → AllFit f ts
        → pending (write_all c ts).socket ≡ pending c.socket ++ wires f ts
    unfolding write_all
    write_all-wires f c [] e fits = sym (append-nil (pending c.socket))
    write_all-wires f c (t ∷ ts) e fits =
        let w = write-Writes asio archive pending c t success pipe (rw e fits.0) in
        write_all-wires f (write asio archive c t success).connection ts (w.same_filter ∙ e) fits.1
        ∙ rw (w.sent, e) (append_assoc (pending c.socket) (wire archive f t) (wires f ts))

    read_all-wires :
        (f : Filter) (c : Connection S) (old : T) (ts : List T)
        → IsArchive archive
        → IsFilter f
        → c.filter ≡ f
        → IsConnection c
        → AllFit f ts
        → pending c.socket ≡ wires f ts
        → read_all c old (length ts) ≡ map (λ t. (t, success)) ts
    unfolding read_all
    read_all-wires f c old [] law filter e valid fits front = refl
    read_all-wires f c old (t ∷ ts) law filter e valid fits front =
        let r =
          read-Reads asio archive pending c t old (wires f ts) (IsArchive-Loads archive t law)
            (rw e filter) pipe.stream valid (rw e fits.0) (rw e front) in
        rw (r.value_read, r.no_error)
          (ap (◌∷◌ (t, success)) (
            read_all-wires f (read asio archive c old).connection old ts law filter
              (r.same_filter ∙ e) r.valid fits.1 r.left))

    -- Messages that fit, written one after the other to an empty pipe, come out of as many
    -- reads at the other end in the same order, unchanged and without an error, if both ends
    -- use the same filter.
    pub read_all-write_all :
        (sender receiver : Connection S) (old : T) (ts : List T)
        → IsArchive archive
        → IsFilter sender.filter
        → receiver.filter ≡ sender.filter
        → IsConnection receiver
        → AllFit sender.filter ts
        → pending sender.socket ≡ []
        → read_all (record receiver { socket = (write_all sender ts).socket }) old (length ts)
          ≡ map (λ t. (t, success)) ts
    read_all-write_all sender receiver old ts law filter e valid fits empty =
        read_all-wires sender.filter _ old ts law filter e valid fits
          (write_all-wires sender.filter sender ts refl fits ∙ rw empty refl)
