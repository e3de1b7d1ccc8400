-- ===== src/Scan.antt =====
-- The scan: the outcome of each source (scan_outcomes.py), its resolution against
-- the previous generation (scan_resolution.py), and the generation that is built from the resolved
-- outcomes (scan_assembly.py, scan_generation.py), all of helper/opatchy_helper.
pub mod Outcomes
pub mod Resolution
pub mod Assembly
pub mod Generation
