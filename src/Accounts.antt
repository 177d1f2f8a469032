-- ===== src/Accounts.antt =====
-- Registration, verification of the email, login, and the tokens of a session.
pub mod Base64
pub mod Password
pub mod Store
pub mod Tokens
pub mod Register
pub mod Verify
pub mod Login
pub mod Spec
pub mod Session
pub mod Created
