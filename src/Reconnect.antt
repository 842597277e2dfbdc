-- ===== src/Reconnect.antt =====
-- Reconnecting: the policy and the decisions of client_types.py, default_decider.py and
-- reconnect_controller.py.
pub mod Policy
pub mod Decider
pub mod Controller
