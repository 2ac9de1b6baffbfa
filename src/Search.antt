-- ===== src/Search.antt =====
-- src/search: the search for places.
pub mod PlacesIndex
