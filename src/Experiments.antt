-- ===== src/Experiments.antt =====
-- experiments/utils/simulation_operations.py: the pipelines that the simulations start from.
pub mod Simulated
pub mod Fake
pub mod Sizes
pub mod Made
pub mod Runner
pub mod Loads
pub mod RunnerTests
pub mod Tests
