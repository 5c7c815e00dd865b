-- ===== src/Packages.antt =====
-- packages/: what the services and the site share.
pub mod Config
pub mod Sdk
mod Tests
