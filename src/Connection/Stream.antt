-- ===== src/Connection/Stream.antt =====
-- What a connection relies on in a stream of bytes and in an archive, and the form of a message on
-- the stream.
use tcpclient_server.Prelude.{
  ℕ, zero, suc, ◌-◌, ◌^◌, ◌≤◌, ◌<◌, ◌≡◌, ◌≢◌, refl, List, [], ◌∷◌, ◌++◌, Bytes, none, length, take,
  drop, replicate, arith, length-replicate, drop-all, ap, append-nil, le→ltb,
}
use tcpclient_server.Errors.{success, returns, throws, length_error}
use tcpclient_server.Header.{header_length, to_hex, setw}
use tcpclient_server.Filter.{Filter}
use tcpclient_server.Io.{Asio, Io, unsecured, ssl, read_impl, write_impl}
use tcpclient_server.Connection.{Archive, Connection, max_size, resize, overwrite}

-- An archive that is saved is loaded again, whatever stood in the variable before, and its text is
-- not empty, since it begins with the archive's signature.
pub record IsArchive {T : Type 0} (archive : Archive T) : Type 0 where
  pub reloads :
      (t old : T) → archive.load (archive.save t) old ≡ record { value = t; failure = none }
  pub signature : (t : T) → archive.save t ≢ []

-- The same of the values that have the property `P` alone; the signature is there for all values.
pub record IsArchiveOn {T : Type 0} (P : T → Type 0) (archive : Archive T) : Type 0 where
  pub reloads :
      (t old : T) → P t → archive.load (archive.save t) old ≡ record { value = t; failure = none }
  pub signature : (t : T) → archive.save t ≢ []

-- A value that its archive loads again.
pub record Loads {T : Type 0} (archive : Archive T) (t : T) : Type 0 where
  pub again : (old : T) → archive.load (archive.save t) old ≡ record { value = t; failure = none }
  pub signed : archive.save t ≢ []

pub IsArchive-Loads :
    {T : Type 0} (archive : Archive T) (t : T) → IsArchive archive → Loads archive t
IsArchive-Loads archive t law = record {
  again = λ old. law.reloads t old;
  signed = law.signature t;
}

pub IsArchiveOn-Loads :
    {T : Type 0} (P : T → Type 0) (archive : Archive T) (t : T)
    → IsArchiveOn P archive
    → P t
    → Loads archive t
IsArchiveOn-Loads P archive t law p = record {
  again = λ old. law.reloads t old p;
  signed = law.signature t;
}

pub IsArchive-IsArchiveOn :
    {T : Type 0} (P : T → Type 0) (archive : Archive T) → IsArchive archive → IsArchiveOn P archive
IsArchive-IsArchiveOn P archive law = record {
  reloads = λ t old p. law.reloads t old;
  signature = law.signature;
}

-- `boost::asio::read` delivers the bytes that are pending, in order, if there are enough of them.
pub record IsStream {S : Type 0} (asio : Asio S) (pending : S → Bytes) : Type 0 where
  pub delivers :
      (n : ℕ) (s : S)
      → n ≤ length (pending s)
      → ((asio.read n s).ec ≡ success)
        × ((asio.read n s).bytes ≡ take n (pending s))
        × (pending (asio.read n s).socket ≡ drop n (pending s))

abbrev pub concat : List Bytes → Bytes
concat [] = []
concat (b ∷ bs) = b ++ concat bs

-- `boost::asio::write` with `transfer_all` appends all of its buffers to what is pending.
pub record IsPipe {S : Type 0} (asio : Asio S) (pending : S → Bytes) : Type 0 where
  pub stream : IsStream asio pending
  pub accepts :
      (buffers : List Bytes) (s : S)
      → ((asio.write buffers s).ec ≡ success)
        × ((asio.write buffers s).length ≡ length (concat buffers))
        × (pending (asio.write buffers s).socket ≡ pending s ++ concat buffers)

-- The data of a message, and the message on the stream.
abbrev pub payload : {T : Type 0} → Archive T → Filter → T → Bytes
payload archive filter t = filter.output_filter (archive.save t)

abbrev pub wire : {T : Type 0} → Archive T → Filter → T → Bytes
wire archive filter t =
    setw header_length (to_hex (length (payload archive filter t))) ++ payload archive filter t

pub read_impl-read :
    {S : Type 0} (asio : Asio S) (io : Io) (n : ℕ) (s : S) → read_impl asio io n s ≡ asio.read n s
unfolding read_impl
read_impl-read asio unsecured n s = refl
read_impl-read asio (ssl io) n s = refl

pub write_impl-write :
    {S : Type 0} (asio : Asio S) (io : Io) (buffers : List Bytes) (s : S)
    → write_impl asio io buffers s ≡ asio.write buffers s
unfolding write_impl
write_impl-write asio unsecured buffers s = refl
write_impl-write asio (ssl io) buffers s = refl

pub length-resized :
    (size : ℕ) (v : Bytes) → length (take size v ++ replicate (size - length v) 0) ≡ size
length-resized zero v = omega (arith, length-replicate {A = ℕ} (0 - length v) 0)
length-resized (suc size) [] = omega (arith, length-replicate {A = ℕ} (suc size - 0) 0)
length-resized (suc size) (c ∷ v) =
    let e : suc size - suc (length v) ≡ size - length v = omega arith in
    rw e (ap suc (length-resized size v))

-- A resize within the limit makes a buffer of the size asked for; beyond it, it throws.
pub resize_lem :
    (size : ℕ) (v : Bytes)
    → size ≤ max_size
    → (buffer : Bytes) × (resize size v ≡ returns buffer) × (length buffer ≡ size)
unfolding resize
resize_lem size v h = (
  take size v ++ replicate (size - length v) 0,
  rw (le→ltb max_size size h),
  length-resized size v,
)

pub resize_throws : (size : ℕ) (v : Bytes) → max_size < size → resize size v ≡ throws length_error
unfolding resize
resize_throws size v h = ground arith

-- A transfer that fills its buffer leaves nothing of the old contents.
pub overwrite_all :
    (received buffer : Bytes)
    → length buffer ≡ length received
    → overwrite received buffer ≡ received
unfolding overwrite
overwrite_all received buffer h =
    rw (drop-all (length received) buffer (omega arith)) (append-nil received)

-- A message that has a header: its data is shorter than 2^32 bytes.
abbrev pub Fits : {T : Type 0} → Archive T → Filter → T → Type 0
Fits archive filter t = length (payload archive filter t) < 2 ^ 32

-- The header buffer of a connection is a `std::array` of `header_length` characters.
abbrev pub IsConnection : {S : Type 0} → Connection S → Type 0
IsConnection c = length c.inbound_header ≡ header_length
