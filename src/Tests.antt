-- ===== src/Tests.antt =====
-- Runs of the modelled operations on small inputs, and each theorem at such an input.
pub mod Settings
pub mod DataSignal
pub mod Edits
pub mod RoundRobin
pub mod Scheduler
pub mod Signals
pub mod Switchboard
pub mod TimePoints
pub mod Values
pub mod Versions
pub mod Zmq
pub mod Topics
pub mod Endpoint
pub mod Address
pub mod Comments
pub mod Names
pub mod Intervals
pub mod Expander
pub mod Multilogger
pub mod Grpc
