-- ===== src/Tests.antt =====
-- Tests of the definitions on small inputs, and the theorems at inputs that meet their hypotheses.
mod Data
mod Lease
mod Store
mod System
mod Server
mod Adapters
mod Session
mod Scenarios
mod Windows
mod Start
mod Program
mod Wakeup
mod ZeroReset
mod Dropped
mod Stuck
mod Shutdown
