-- ===== src/Oauth2.antt =====
-- internal/oauth2: clients, authorization codes and tokens.
pub mod Client
pub mod Encryption
pub mod Frames
pub mod Service
pub mod Authorize
pub mod Exchange
pub mod Refresh
