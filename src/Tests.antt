-- ===== src/Tests.antt =====
-- Runs of the model on concrete inputs, and the instances that show each theorem's hypotheses to
-- hold.
mod Parsing
mod Files
mod Tunnels
mod Settings
mod Sessions
mod Loops
mod Whole
mod Running
