-- ===== src/Kamatera.antt =====
-- internal/kamatera: the client of the two Kamatera APIs.
pub mod Types
pub mod Errors
pub mod Json
pub mod CommandId
pub mod Redact
pub mod Http
pub mod Console
pub mod Create
pub mod ClientOptions
pub mod Watcher
pub mod Service
