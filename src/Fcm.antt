-- ===== src/Fcm.antt =====
-- pkg/googlefindmy/fcm: the MCS client that receives FCM pushes, and the registration's retries.
pub mod Varint
pub mod Message
pub mod PushCrypto
pub mod Client
pub mod Session
pub mod Retry
pub mod Register
mod Tests
