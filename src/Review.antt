-- ===== src/Review.antt =====
-- The review queue: archive/code/src/review/store.ts and cli/commands/review.ts.
pub mod Item
pub mod Store
pub mod Commands
mod Tests
