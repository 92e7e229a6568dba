-- ===== src/Api.antt =====
-- Package `api`: the HTTP handlers of the artifact store.
pub mod Http
pub mod Token
pub mod Push
pub mod Handlers
pub mod Server
