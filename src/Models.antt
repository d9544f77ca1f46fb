-- ===== src/Models.antt =====
-- optimizer/models.py: what a pipeline is made of.
pub mod Profile
pub mod Task
pub mod BaseAllocation
pub mod Switch
pub mod Pipeline
