-- ===== src/TsSdk.antt =====
-- sdks/typescript/src: the client library of Phoenix' HTTP API.
pub mod Case
pub mod Redaction
pub mod Errors
pub mod Wire
pub mod Config
pub mod Transport
pub mod Client
