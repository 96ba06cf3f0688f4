-- ===== src/Pages.antt =====
-- The topics in the frontmatter of pages (wiki/topics/frontmatter-rewrite.ts and the commands
-- that use it).
pub mod Split
pub mod Scalars
pub mod Read
pub mod Rewrite
pub mod Tag
mod Tests
