-- ===== src/Tests.antt =====
-- Runs of the model at concrete inputs, and the theorems at inputs that meet their hypotheses.
mod Wire
mod Table
mod Client
mod Server
mod Manager
mod Call
mod Facade
mod Connecting
mod Examples
mod Broadcasting
mod Handshakes
