-- ===== src/Connection/Tests.antt =====
-- Messages over a socket that hands back what is written to it.
use tcpclient_server.Prelude.{
  ◌⊎◌, ℕ, ◌≡◌, refl, ap, arith, true, List, [], ◌∷◌, ◌++◌, Bytes, none, some, length, codes,
  if◌then◌else◌, ◌==◌,
}
use tcpclient_server.Errors.{Exception, success, invalid_argument, std_exception, returns, throws}
use tcpclient_server.Header.{header_length, parse_header}
use tcpclient_server.Filter.{create}
use tcpclient_server.Filter.Laws.{create-IsFilter}
use tcpclient_server.Filter.Tests.{marking, marking-IsZlib}
use tcpclient_server.Io.{unsecured, read_impl}
use tcpclient_server.Io.Tests.{loopback, joined}
use tcpclient_server.Connection.{Archive, Loaded, Connection, resize, overwrite, read, async_read}
use tcpclient_server.Connection.Stream.{IsArchive, IsArchive-Loads, IsPipe, concat, wire}
use tcpclient_server.Connection.Sync.{Reads, read-Reads}
use tcpclient_server.Connection.Async.{succeeded, async_read-read}
use tcpclient_server.Connection.Converse.{reported_as, read-async_read}
use tcpclient_server.Connection.Faults.{read_bad_header, read_interrupted}
use tcpclient_server.Connection.Exchange.{write_all, read_all, read_all-write_all}

-- An archive of a number: a signature and the number.
abbrev load_number : Bytes → ℕ → Loaded ℕ
load_number [] old = record { value = old; failure = some std_exception }
load_number (c ∷ []) old = record { value = old; failure = some std_exception }
load_number (c ∷ n ∷ s) old =
    if c == 22
    then record { value = n; failure = none }
    else record { value = old; failure = some std_exception }

abbrev pub number_archive : Archive ℕ
number_archive = record { save = λ n. 22 ∷ n ∷ []; load = load_number }

pub number_archive-IsArchive : IsArchive number_archive
number_archive-IsArchive = record { reloads = λ t old. refl; signature = λ t e. cc }

joined-concat : (bs : List Bytes) → joined bs ≡ concat bs
joined-concat [] = refl
joined-concat (b ∷ bs) = ap (◌++◌ b) (joined-concat bs)

pub loopback-IsPipe : IsPipe loopback (λ s. s)
loopback-IsPipe = record {
  stream = record { delivers = λ n s h. (ground arith, ground arith, ground arith) };
  accepts = λ bs s. (refl, ap length (joined-concat bs), ap (◌++◌ s) (joined-concat bs));
}

abbrev pub connection_on : Bytes → Connection Bytes
connection_on s = record {
  io = unsecured;
  filter = create marking true;
  socket = s;
  outbound_header = [];
  outbound_data = [];
  inbound_header = codes "garbage!";
  inbound_data = [];
}

read_all-write_all_example :
    read_all loopback number_archive
      (record (connection_on []) {
        socket = (write_all loopback number_archive (connection_on []) (5 ∷ 6 ∷ 7 ∷ [])).socket;
      })
      0
      3
    ≡ (5, success) ∷ (6, success) ∷ (7, success) ∷ []
unfolding create
read_all-write_all_example =
    read_all-write_all loopback number_archive (λ s. s) loopback-IsPipe (connection_on [])
      (connection_on []) 0 (5 ∷ 6 ∷ 7 ∷ []) number_archive-IsArchive
      (create-IsFilter marking true marking-IsZlib) refl refl (omega arith) refl

abbrev framed : Connection Bytes
framed = connection_on (wire number_archive (create marking true) 9 ++ codes "tail")

read-Reads_example :
    Reads loopback number_archive
      (λ s. s)
      framed
      9
      (codes "tail")
      (read loopback number_archive framed 0)
unfolding create
read-Reads_example =
    read-Reads loopback number_archive (λ s. s) framed 9 0 (codes "tail")
      (IsArchive-Loads number_archive 9 number_archive-IsArchive)
      (create-IsFilter marking true marking-IsZlib) loopback-IsPipe.stream refl (omega arith) refl

-- The three bytes of a filtered number, behind their header.
abbrev arrived_nine : Connection Bytes
arrived_nine = connection_on (codes "       3" ++ (0x78 ∷ 22 ∷ 9 ∷ []))

async_read-read_example :
    read loopback number_archive arrived_nine 0
    ≡ succeeded loopback number_archive (async_read loopback number_archive arrived_nine 0) 11
unfolding create async_read parse_header read_impl overwrite resize
async_read-read_example = async_read-read loopback number_archive arrived_nine 0 11 refl

read-async_read_example :
    async_read loopback number_archive arrived_nine 0
    ≡ reported_as loopback number_archive (read loopback number_archive arrived_nine 0) 11
unfolding create parse_header read_impl overwrite resize read
read-async_read_example = read-async_read loopback number_archive arrived_nine 0 11 3 refl refl refl

abbrev no_number : Connection Bytes
no_number = connection_on (codes "GET / HTTP/1.1")

read_bad_header_example :
    ((read loopback number_archive no_number 4).ec ≡ success)
    × ((read loopback number_archive no_number 4).length ≡ returns 0)
    × ((read loopback number_archive no_number 4).value ≡ 4)
    × ((n : ℕ) × ((async_read loopback number_archive no_number 4).report
          ≡ returns (invalid_argument, n)))
unfolding read_impl overwrite parse_header
read_bad_header_example = read_bad_header loopback number_archive no_number 4 refl refl

abbrev minus_one : Connection Bytes
minus_one = connection_on (codes "      -1")

-- The peer goes away behind the first byte of the data.
abbrev cut_off : Connection Bytes
cut_off = connection_on (codes "       3" ++ (0x78 ∷ []))

read_interrupted_example :
    let ec =
      (read_impl loopback unsecured 3
        (read_impl loopback unsecured header_length cut_off.socket).socket).ec in
    let r = read loopback number_archive cut_off 4 in
    ((k : ℕ) × ((async_read loopback number_archive cut_off 4).report ≡ returns (ec, k)))
    × ((((number_archive.load (0 ∷ 0 ∷ []) 4).failure ≡ none)
          × (r.ec ≡ ec)
          × (r.value ≡ 4)
          × ((k : ℕ) × (r.length ≡ returns k)))
        ⊎ (((e : Exception) × ((number_archive.load (0 ∷ 0 ∷ []) 4).failure ≡ some e))
            × (r.ec ≡ invalid_argument)
            × (r.length ≡ throws std_exception)))
unfolding create read_impl overwrite parse_header resize
read_interrupted_example =
    read_interrupted loopback number_archive cut_off 4 3 (0 ∷ 0 ∷ 0 ∷ []) (0 ∷ 0 ∷ []) refl refl
      refl refl refl
