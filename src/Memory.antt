-- ===== src/Memory.antt =====
-- py/src/lg_orch/memory.py: the context of a run, fitted into a budget of tokens, its facts and its
-- history.
pub mod Fit
pub mod Settings
pub mod History
pub mod Facts
mod Examples
