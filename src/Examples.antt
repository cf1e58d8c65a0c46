-- ===== src/Examples.antt =====
-- The theorems at concrete inputs, and tests of the definitions.
mod World
mod Disk
mod Machine
mod Downloading
mod Furnishing
mod Editing
mod Live
mod Following
mod Sampling
mod Syncing
mod Serving
mod Serializing
mod Connecting
mod Accepting
mod Resolving
mod Writing
