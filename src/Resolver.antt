-- ===== src/Resolver.antt =====
-- Sources/Resolver/Resolver.cpp, class RenderStudioResolver.
pub mod Paths
pub mod Assets
pub mod Session
pub mod Unresolving
