-- ===== src/Engine.antt =====
-- src/engine: the limits and checks before a run, a connection, and the worker that drives many.
pub mod Limits
pub mod Options
pub mod Outside
pub mod Action
pub mod Transport
pub mod Connection
