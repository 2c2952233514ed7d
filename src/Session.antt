-- ===== src/Session.antt =====
-- internal/session/store.go and internal/store/repository_session.go: logins and sessions.
pub mod Logins
pub mod Tokens
pub mod Rows
pub mod Access
