-- ===== src/Examples.antt =====
-- Tests of the model and instances of its theorems.
mod Services
mod Codec
mod Reconnect
mod Runtime
mod EventLoop
mod Supervision
mod Calls
mod Addresses
mod Sends
mod Signals
mod Heartbeats
