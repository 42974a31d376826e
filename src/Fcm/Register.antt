-- ===== src/Fcm/Register.antt =====
-- pkg/googlefindmy/fcm/register.go: the registration at GCM and FCM.
pub mod Config
pub mod Gcm
pub mod Install
pub mod Flow
pub mod Retried
pub mod Cert
pub mod Flex
mod Tests
