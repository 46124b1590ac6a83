-- ===== src/Corpus/Patterns.antt =====
-- The tables of src/compliance/corpus/classifier.py.
pub mod Excluded
pub mod Described
pub mod Runtime
