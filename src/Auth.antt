-- ===== src/Auth.antt =====
-- internal/service/auth: the authorization, token and login services.
pub mod Service
pub mod Authorization
pub mod Rotation
pub mod Revoke
pub mod Provider
pub mod Challenge
pub mod Login
pub mod ChangePassword
pub mod Shrinks
pub mod Calls
