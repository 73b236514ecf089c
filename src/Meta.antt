-- ===== src/Meta.antt =====
-- py/src/lg_orch/meta_graph.py: the dependency graph of sub-agent tasks and their scheduler.
pub mod Task
pub mod Validate
pub mod Edges
pub mod Scheduler
mod Examples
