-- ===== src/Services.antt =====
-- The services that keep the instruments recording: the registry of recordings, their
-- persisted run-state, the liveness rule, the automated recovery and the scheduler of
-- src/ecallisto_ng/services. Times are milliseconds, rates thousandths of a hertz.
pub mod Recorder
pub mod Runtime
pub mod Windows
pub mod AutoRecover
pub mod PortLock
pub mod Diagnostics
pub mod Cockpit
pub mod Scheduler
