-- ===== src/Routing.antt =====
-- py/src/lg_orch/model_routing.py: which model serves a call, and the memory that the calls share.
pub mod Decide
mod Examples
pub mod Latency
pub mod Diversity
pub mod Reflections
