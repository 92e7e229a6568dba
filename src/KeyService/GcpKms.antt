-- ===== src/KeyService/GcpKms.antt =====
-- keyservice/gcpkms_setup.go: the configuration of `GCPKMS` and its paths.
pub mod Api
pub mod Service
use ortholog_artifact_store.Base.{
  Text, text, is_empty, has_prefix, Result, ok, err, map_err, ◌>>=◌, not, Option, none, some, [],
  ◌∷◌, ◌++◌, if◌then◌else◌,
}
use ortholog_artifact_store.Base.Dict.{Dict}
use ortholog_artifact_store.Base.Hex.{hex_encode}
use ortholog_artifact_store.Storage.{Storage}
use ortholog_artifact_store.Transport.{HttpResponse}
use ortholog_artifact_store.KeyService.{KeyError}
use ortholog_artifact_store.KeyService.Requests.{fmt_service_err}
use ortholog_artifact_store.KeyService.Vault.{or_default, trim_right_slashes}

-- `GCPKMSConfig` without its client.
pub record GcpKmsConfig : Type 0 where
  pub kek_resource_name : Text
  pub firestore_project_id : Text
  pub firestore_database : Text
  pub firestore_collection : Text
  pub kms_endpoint : Text
  pub firestore_endpoint : Text

abbrev pub gcpkms_defaults : GcpKmsConfig → GcpKmsConfig
gcpkms_defaults cfg = record {
  kek_resource_name = cfg.kek_resource_name;
  firestore_project_id = cfg.firestore_project_id;
  firestore_database = or_default cfg.firestore_database (text "(default)");
  firestore_collection = or_default cfg.firestore_collection (text "ortholog-artifact-keys");
  kms_endpoint =
      trim_right_slashes (or_default cfg.kms_endpoint (text "https://cloudkms.googleapis.com"));
  firestore_endpoint =
      trim_right_slashes
        (or_default cfg.firestore_endpoint (text "https://firestore.googleapis.com"));
}

-- `NewGCPKMS`. The second argument is what `google.DefaultTokenSource` gives, if no client is
-- configured.
unfoldable pub new_gcpkms :
    GcpKmsConfig → Option (Result Text (Unit {0})) → Result Text GcpKmsConfig
unfolding has_prefix
new_gcpkms cfg credentials =
    if is_empty cfg.kek_resource_name
    then err (text "keyservice/gcpkms: KEKResourceName is required")
    else if not (has_prefix cfg.kek_resource_name (text "projects/"))
    then err
        (text "keyservice/gcpkms: KEKResourceName must be in projects/.../cryptoKeys/<name> form")
    else if is_empty cfg.firestore_project_id
    then err (text "keyservice/gcpkms: FirestoreProjectID is required")
    else elim credentials [
      | none ↦ ok (gcpkms_defaults cfg)
      | some source ↦
          map_err (λ e. text "keyservice/gcpkms: ADC token source: " ++ e) source >>= λ _.
          ok (gcpkms_defaults cfg)
    ]

-- The bodies of the requests, before `encoding/json` prints them; base64 is a text of its own.
pub data GcpBody : Type 0 where
  plaintext ciphertext document : Text → GcpBody

module _ (S : Storage) (g : GcpKmsConfig) where
  -- `docID`
  unfoldable pub doc_id : S.Cid → Text
  unfolding hex_encode
  doc_id cid = hex_encode (S.digest cid)

  -- `firestoreParentPath`
  abbrev pub firestore_parent_path : Text
  firestore_parent_path =
      text "projects/"
      ++ (g.firestore_project_id
          ++ (text "/databases/"
              ++ (g.firestore_database ++ (text "/documents/" ++ g.firestore_collection))))

  -- `firestoreDocPath`, which nothing calls.
  unfoldable pub firestore_doc_path : S.Cid → Text
  unfolding doc_id
  firestore_doc_path cid =
      text "projects/"
      ++ (g.firestore_project_id
          ++ (text "/databases/"
              ++ (g.firestore_database
                  ++ (text "/documents/"
                      ++ (g.firestore_collection ++ (text "/" ++ hex_encode (S.digest cid)))))))

  -- The URL of an operation on the key-encryption key.
  unfoldable pub kms_url : Text → Text
  kms_url operation =
      g.kms_endpoint ++ (text "/v1/" ++ (g.kek_resource_name ++ (text ":" ++ operation)))

  unfoldable pub create_url : Text → Text
  create_url id =
      g.firestore_endpoint
      ++ (text "/v1/" ++ (firestore_parent_path ++ (text "?documentId=" ++ id)))

  unfoldable pub doc_url : Text → Text
  doc_url id = g.firestore_endpoint ++ (text "/v1/" ++ (firestore_parent_path ++ (text "/" ++ id)))

abbrev pub gcp_prefix : Text
gcp_prefix = text "keyservice/gcpkms"

abbrev pub fmt_gcp_err : HttpResponse → Text → KeyError
fmt_gcp_err = fmt_service_err gcp_prefix

-- The client adds the authorization.
abbrev pub gcp_headers : Option GcpBody → Dict Text
gcp_headers none = []
gcp_headers (some body) = (text "Content-Type", text "application/json") ∷ []
