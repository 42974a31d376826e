-- ===== src/Maps/SavedPlaces.antt =====
-- pkg/googlefindmy/maps/savedplaces: the lists of saved places, as named by the user and as
-- answered.
pub mod Specs
pub mod Entities
pub mod Fetch
pub mod Discovery
pub mod Page
mod Tests
