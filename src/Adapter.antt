-- ===== src/Adapter.antt =====
-- optimizer/adapter.py and optimizer/sim_adapter.py: the control loops on top of the optimizer.
pub mod Configs
pub mod Predictor
pub mod Cluster
pub mod Monitoring
pub mod Passes
pub mod Rounds
pub mod Simulation
pub mod Built
pub mod Tests
pub mod LoopTests
