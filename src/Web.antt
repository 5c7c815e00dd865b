-- ===== src/Web.antt =====
-- apps/web: what the site's pages compute from the sample manifest and the constants.
pub mod Format
pub mod Search
pub mod Manifest
pub mod Lookup
pub mod Pages
pub mod ExportCheck
mod Tests
