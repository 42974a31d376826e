-- ===== src/Spot.antt =====
-- pkg/googlefindmy/spot: the Spot API, and the owner key.
pub mod Client
pub mod OwnerKey
