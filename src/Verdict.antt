-- ===== src/Verdict.antt =====
-- The compliance decision: src/compliance/pipeline/types.py, src/compliance/requirements/base.py
-- and src/compliance/requirements/ai_act/article_12_1.py.
pub mod Types
pub mod Requirement
pub mod Article
pub mod Reduction
