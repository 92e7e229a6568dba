-- ===== src/Storage.antt =====
-- The SDK's package `storage`, which the repository only calls: content identifiers with their
-- operations, its two sentinel errors and its method names. All of it is a parameter.
use ortholog_artifact_store.Base.{Text, Bytes, Result, Bool, Option}
use ortholog_artifact_store.Base.Int.{ℤ}

pub record Storage : Type 1 where
  pub Cid : Type 0
  pub Algorithm : Type 0
  -- `storage.CID{}`
  pub zero_cid : Cid
  pub algorithm : Cid → Algorithm
  pub digest : Cid → Bytes
  -- `storage.ParseCID`; the error is its text
  pub parse_cid : Text → Result Text Cid
  -- `cid.String()`
  pub string : Cid → Text
  -- `cid.Verify(data)`
  pub verify : Cid → Bytes → Bool
  -- `storage.Compute`, `storage.ComputeWith`
  pub compute : Bytes → Cid
  pub compute_with : Bytes → Algorithm → Cid
  pub content_not_found_text : Text
  pub not_supported_text : Text
  pub method_signed_url : Text
  pub method_direct : Text

-- An error of a content store. Handlers tell the SDK's sentinels apart by `errors.Is`; of any
-- other error they see the text.
pub data StoreError : Type 0 where
  content_not_found not_supported : StoreError
  other : Text → StoreError

-- `err.Error()`
unfoldable pub error_text : Storage → StoreError → Text
error_text S content_not_found = S.content_not_found_text
error_text S not_supported = S.not_supported_text
error_text S (other message) = message

-- `storage.RetrievalCredential`. A time is its nanoseconds since the epoch.
pub record RetrievalCredential : Type 0 where
  pub method : Text
  pub url : Text
  pub expiry : Option ℤ
