-- ===== src/Lib.antt =====
-- Verification of the artifact store.
--
-- The store is an HTTP service for content-addressed artifacts. A request goes through the routes of
-- api/server.go to a handler; the handlers call a backend (backends/), which may be a mirrored pair;
-- the settings come from the environment (config/). Uploads may carry a token that an operator has
-- signed (api/token.go), whose keys are read at the start (cmd/artifact-store/token.go).
--
-- Base, with Base/Int, Base/Dict and Base/Hex, has Go's data: texts and byte slices are lists of byte
-- values, `(value, error)` is `Result`, maps are association lists, and `int64` is an integer whose
-- sums and products wrap round. Texts of errors are kept, since handlers send and log them.
--
-- Storage is the SDK's package `storage`, a parameter: content identifiers with their operations
-- (`ParseCID`, `Verify`, `ComputeWith`), and the sentinel errors, told apart by constructors.
--
-- Backends/Provider is the interface `BackendProvider` of backends/backend.go over an abstract state,
-- so that a call may change the remote store, and the contract `IsContentStore` that its comments
-- promise. Backends/Mirrored is backends/mirrored.go: the state of both replicas and the log.
--
-- Transport is net/http on the client's side, a parameter: making a request, and sending it, over the
-- state of the remote service. Backends/Sending has the steps that both remote backends share, from
-- the request to the response. Backends/Gcs is backends/gcs.go and Backends/RustFs is
-- backends/rustfs.go: the URLs, the headers, one request for each operation, and the reading of its
-- status. `Backends/*/Contract` states what the services document of a bucket, as hypotheses on the
-- client, and Base/Urls has `url.PathEscape` and `url.QueryEscape` of Go.
--
-- Api/Http has requests, responses and audit records (api/helpers.go, api/wire.go). Api/Token is
-- api/token.go; its `Codec` stands for base64, JSON and the SDK's Ed25519, each with the text of its
-- error. Api/Push is api/push.go, one function for each step of `ServeHTTP`, from the header to the
-- backend; an outcome is the response, the audit records and the state. Api/Handlers has the other
-- handlers (api/fetch.go, exists.go, pin.go, delete.go, resolve.go, health.go). Api/Server is
-- `NewMux` of api/server.go: the routes, one request, and a sequence of requests.
--
-- KeyService has the key services of keyservice/. KeyService/Rotation has the operations of a key
-- service, the contract that the SDK's `ArtifactKeyService` gives them, and `Rotate`, which all three
-- write alike. KeyService/Envelope is what vault.go and gcpkms.go share: a fresh key encrypts in
-- process (internals.go) and the service keeps that key, wrapped; `Envelope` is what each does in its
-- own way, and KeyService/Requests is the `do` of both. KeyService/Vault, with its children Api and
-- Service, is vault.go and vault_api.go, and KeyService/GcpKms, with Api and Service, is
-- gcpkms_setup.go, gcpkms_api.go and gcpkms.go: the paths, one function for each request, and the
-- operations. The state is the world behind the client, the random source included, and `pathCache`.
-- JSON, base64, AES-GCM, secp256k1 and ECIES are parameters. An error that wraps an SDK sentinel is a
-- constructor with the text that follows; the errors of the two steps before a deletion in Vault read
-- a closed body, as the source does.
--
-- KeyService/Pkcs11 is pkcs11_setup.go, with Session for pkcs11_api.go and Service for pkcs11.go.
-- `Pkcs11Ctx` stands for github.com/miekg/pkcs11 over the tokens of a module, a handle for each
-- session and each object. The operations are calls in the sense of KeyService/Calls, which may fail
-- and leave the world changed, with `defer` as `finally` and the destruction of a key after a failure
-- as `or_undo`; KeyService/Calls/Runs has the rules for what such calls come to.
--
-- Config is config/config.go: `Load` over the environment as a function, and `validate`.
--
-- OperatorKeys is cmd/artifact-store/token.go: the inline list of keys and its split, the directory as
-- the list that `os.ReadDir` gives, the three encodings of a key, and the choice of the verifier.
-- PEM, hex and base64 are a parameter, `KeyCodec`; the depth of the PEM blocks is the pair of the
-- counts of their beginnings and ends, which are equal where Go's counter is 0.
--
-- Startup is cmd/artifact-store/main.go and keyservice.go: the backend and the key service that a
-- configuration selects, and the settings of the server. The SDK's store in memory, the HTTP client,
-- the PKCS#11 module and GCP's default credentials are parameters; each backend has a client of its
-- own.
--
-- Tests has a small world (CIDs that are their data, a store in memory, buckets of two objects, a
-- Vault, a Cloud KMS with its Firestore, a PKCS#11 token, upload tokens signed by their key) in which
-- the theorems are applied to concrete requests.
--
-- Bounds: a body has any length; sizes and limits are `int64`, and where a theorem needs the limit
-- plus one to fit, it says so. The decimal printer recurs on the number itself as its fuel, which
-- more than covers its digits; nothing else runs on fuel.
--
-- Not modelled: the signing of requests (internal/signers) and the life cycle of the process
-- (signals, timeouts, goroutines; of the warnings only the number). Requests are served one after
-- the other, and the operations of a key service too. JSON and header printing are data, not bytes,
-- and the retries of the SDK's HTTP client belong to the client. A request whose URL is malformed
-- makes the health checks of both backends panic; here they fail. `strings.TrimSpace` and `%q` are
-- those of ASCII text.
pub mod Base
pub mod Storage
pub mod Transport
pub mod Backends
pub mod Api
pub mod KeyService
pub mod Config
pub mod OperatorKeys
pub mod Startup
pub mod Tests
