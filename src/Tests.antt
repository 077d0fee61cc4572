-- ===== src/Tests.antt =====
-- Concrete libraries, brokers and clients, on which the theorems are run.
pub mod Samples
pub mod Connections
pub mod Creation
pub mod Discovering
pub mod Reloading
pub mod Observing
pub mod Instrumenting
pub mod Running
