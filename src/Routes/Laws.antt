-- ===== src/Routes/Laws.antt =====
-- What holds of the routes that the parsers accept.
pub mod Locations
pub mod Accepted
pub mod Canonical
pub mod Credentials
pub mod Verbs
pub mod Documents
pub mod Disjoint
pub mod Groups
pub mod Parsers
pub mod Served
