-- ===== src/Access.antt =====
-- Who may use the service: device tokens, pairing requests, owner sessions and the login limit
-- (internal/memory/client_tokens.go and owner_sessions.go, internal/service/pairing.go and
-- visualizer_session.go). Digests stand for what they digest: a hash is a string here.
pub mod Tokens
pub mod Revocation
pub mod Pairing
pub mod Approval
pub mod Logins
pub mod Sessions
mod Tests
