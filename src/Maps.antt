-- ===== src/Maps.antt =====
-- pkg/googlefindmy/maps: the saved places and the location sharing of Google Maps.
pub mod SavedPlaces
pub mod Login
pub mod Contacts
pub mod Client
mod Tests
