-- ===== src/Corpus.antt =====
-- src/compliance/corpus: the repositories that are found, classified and stored.
pub mod Patterns
pub mod Classifier
pub mod Repositories
pub mod Reclassify
pub mod Discovery
mod Examples
