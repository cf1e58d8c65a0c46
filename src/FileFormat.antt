-- ===== src/FileFormat.antt =====
-- Sources/Resolver/FileFormat.cpp and Registry.cpp: the file format of live layers, which collects the
-- events that arrive and processes them when the application asks for it.
pub mod Registry
pub mod Events
pub mod Loading
pub mod Original
pub mod LiveUpdates
pub mod Receiving
pub mod CatchUp
pub mod Following
pub mod Reloads
pub mod Unopened
pub mod NoFailure
pub mod LocalEdits
