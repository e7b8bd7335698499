-- ===== src/Darkweb.antt =====
-- packages/darkweb/src: the dark-web package.
pub mod Policy
pub mod Monitor
