-- ===== src/Links.antt =====
-- References to files and pages in the text of a wiki.
pub mod Paths
pub mod Wikilinks
pub mod Mentions
mod Tests
