-- ===== src/Auth.antt =====
-- pkg/googlefindmy/auth: the credential store.
pub mod Store
pub mod Gpsoauth
