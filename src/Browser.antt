-- ===== src/Browser.antt =====
-- pkg/googlefindmy/browser/oauth.go: the sign-in, and the shared key that a page of Google hands
-- over.
pub mod SharedKey
pub mod Flow
mod Tests
