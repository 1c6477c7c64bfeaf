-- ===== src/Bridge.antt =====
-- network/http_bridge.py: the node's HTTP interface.
pub mod Submit
pub mod Replay
pub mod Payloads
pub mod Panel
pub mod Bar
pub mod Shown
pub mod All
