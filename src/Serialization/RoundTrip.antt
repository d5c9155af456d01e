-- ===== src/Serialization/RoundTrip.antt =====
-- What is saved of a request or of a response is loaded back.
use tcpclient_server.Prelude.{
  ◌≡◌, ◌≢◌, ap, none, Bytes, ◌++◌, [], append_assoc, append-nil, sym, ◌∙◌,
}
use tcpclient_server.Response.{TransmissionStatus, Response}
use tcpclient_server.Calculator.{ClientData, ServerData}
use tcpclient_server.Connection.Stream.{IsArchive}
use tcpclient_server.Serialization.{
  Loading, Member, Members, load_member, response_member, client_data_member, server_data_member,
  archive_of,
}

-- What is put is taken back, whatever stands behind it and whatever the variable held.
pub record IsMember {A : Type 0} (m : Member A) : Type 0 where
  pub taken :
      (x old : A) (rest : Bytes)
      → m.take (m.put x ++ rest) old ≡ record { value = x; rest = rest; failure = none }

pub record IsMembers {F : Type 0} (members : Members F) : Type 0 where
  pub text : IsMember members.text
  pub padding : IsMember members.padding
  pub int32 : IsMember members.int32
  pub time : IsMember members.time
  pub double : IsMember members.double
  pub operation : IsMember members.operation

pub response-IsMember :
    {D : Type 0} (status : Member TransmissionStatus) (d : Member D)
    → IsMember status
    → IsMember d
    → IsMember (response_member status d)
unfolding response_member load_member
response-IsMember status d status_law law = record {
  taken = λ r old rest. simp (append_assoc, status_law.taken, law.taken);
}

module _ {F : Type 0} (members : Members F) (laws : IsMembers members) where
  pub server_data-IsMember : IsMember (server_data_member members)
  unfolding server_data_member load_member
  server_data-IsMember = record {
    taken = λ d old rest.
        simp
          (append_assoc, laws.time.taken, laws.int32.taken, laws.double.taken, laws.padding.taken);
  }

  pub client_data-IsMember : IsMember (client_data_member members)
  unfolding client_data_member load_member
  client_data-IsMember = record {
    taken = λ d old rest. simp (
      append_assoc, laws.text.taken, laws.int32.taken, laws.double.taken, laws.operation.taken,
      laws.padding.taken,
    );
  }

-- What Boost's text archives promise of a class: its members are loaded as they were saved, and the
-- text is not empty, since an archive begins with its signature.
pub record IsEnvelope {T : Type 0} (envelop : Member T → Member T) : Type 0 where
  pub keeps : (m : Member T) → IsMember m → IsMember (envelop m)
  pub begins : (m : Member T) (t : T) → (envelop m).put t ≢ []

archive_of-IsArchive :
    {T : Type 0} (envelop : Member T → Member T) (m : Member T)
    → IsEnvelope envelop
    → IsMember m
    → IsArchive (archive_of envelop m)
unfolding archive_of
archive_of-IsArchive envelop m law ism = record {
  reloads = λ t old.
      ap (λ (l : Loading _). record { value = l.value; failure = l.failure })
        (ap (λ s. (envelop m).take s old) (sym (append-nil ((envelop m).put t)))
          ∙ (law.keeps m ism).taken t old []);
  signature = λ t. law.begins m t;
}

module _ {F : Type 0} (members : Members F) (laws : IsMembers members) where
  -- A request that is saved in an archive is loaded again, field by field, whatever request stood
  -- in the variable before, if the archive does so for the types of its fields.
  pub client_data-IsArchive :
      (envelop : Member (ClientData F) → Member (ClientData F))
      → IsEnvelope envelop
      → IsArchive (archive_of envelop (client_data_member members))
  client_data-IsArchive envelop law =
      archive_of-IsArchive envelop (client_data_member members) law
        (client_data-IsMember members laws)

  -- So is a response with its status and all fields of its data, where the data is a class of its
  -- own within the archive.
  pub response-IsArchive :
      (status : Member TransmissionStatus) (nested : Member (ServerData F) → Member (ServerData F))
      (envelop : Member (Response (ServerData F)) → Member (Response (ServerData F)))
      → IsMember status
      → IsEnvelope nested
      → IsEnvelope envelop
      → IsArchive
          (archive_of envelop (response_member status (nested (server_data_member members))))
  response-IsArchive status nested envelop status_law nested_law law =
      archive_of-IsArchive envelop (response_member status (nested (server_data_member members)))
        law
        (response-IsMember status (nested (server_data_member members)) status_law
          (nested_law.keeps (server_data_member members) (server_data-IsMember members laws)))
