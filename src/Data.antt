-- ===== src/Data.antt =====
-- Sources/Resolver/Data.cpp and Data.h: the layer data that records local edits and applies the
-- remote ones.
pub mod State
pub mod Edit
pub mod UniqueFields
pub mod TimeSamples
pub mod Lookup
pub mod Samples
pub mod Bracketing
pub mod LocalDeltas
pub mod Layer
pub mod Merge
pub mod Children
pub mod Apply
pub mod CatchUp
pub mod Process
pub mod Frame
pub mod Delivery
pub mod Requeue
pub mod Reordering
pub mod Conflict
pub mod EarlyAcknowledge
pub mod Reachable
