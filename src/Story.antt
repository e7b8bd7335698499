-- ===== src/Story.antt =====
-- packages/story-memory: what is known of a story while it is written.
pub mod Promises
