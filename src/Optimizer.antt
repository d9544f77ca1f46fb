-- ===== src/Optimizer.antt =====
-- optimizer/optimizer.py: the search for a configuration of a pipeline.
pub mod Objective
pub mod Rows
pub mod States
pub mod BruteForce
pub mod Parameters
pub mod Program
