-- ===== src/Serialization.antt =====
-- Sources/Serialization: what the clients and the server send each other.
pub mod Api
pub mod Json
pub mod Conversion
pub mod Forms
pub mod Matrices
pub mod Values
pub mod Faithful
pub mod ListOps
pub mod ValueRoundTrip
pub mod Events
pub mod Collecting
pub mod EventRoundTrip
pub mod Matrix
