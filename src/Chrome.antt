-- ===== src/Chrome.antt =====
-- pkg/googlefindmy/chrome: how the browser is launched, and the lock of its profile.
pub mod Launch
pub mod Profile
