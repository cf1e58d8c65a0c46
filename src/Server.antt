-- ===== src/Server.antt =====
-- Sources/Server: the live server, which numbers the edits of each layer and passes them on.
pub mod Channel
pub mod Logic
pub mod Numbering
pub mod Broadcast
pub mod Observer
pub mod Joining
pub mod Sessions
