-- ===== src/Sample.antt =====
-- Concrete parameters, at which the theorems are applied: a small JSON type, and a list as queue.
pub mod Value
pub mod Laws
pub mod Queues
