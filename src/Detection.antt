-- ===== src/Detection.antt =====
-- detection/pipeline.py, rules/baseline.py, scoring.py and registry.py: from a request to a detection.
pub mod Floats
pub mod Registry
pub mod Rules
pub mod Pipeline
pub mod Verified
