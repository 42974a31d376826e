-- ===== src/Crypto.antt =====
-- pkg/googlefindmy/crypto: the cryptography of the Find My Device network.
pub mod Aes
pub mod Eax
pub mod BigInt
pub mod Curve
pub mod Eid
pub mod ForeignTracker
pub mod KeyBackup
pub mod Fmdn
mod Tests
