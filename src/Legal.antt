-- ===== src/Legal.antt =====
-- The legal texts: src/compliance/requirements/article_classifier.py and src/compliance/legal/chunker.py.
pub mod Signals
pub mod Articles
pub mod Chunks
mod Examples
