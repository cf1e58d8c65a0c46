-- ===== src/Downloads.antt =====
-- What is fetched from other machines and put into files: Sources/Networking/RestClient.cpp,
-- MaterialLibraryApi.cpp and LocalStorageApi.cpp, Sources/Resolver/Asset.cpp, Sources/Utils/FileUtils.cpp
-- and Uuid.cpp, and the assistant of Sources/Schema/AiTools.cpp.
pub mod Host
pub mod FileUtils
pub mod Uuid
pub mod RestClient
pub mod Packages
pub mod MaterialLibrary
pub mod LocalStorage
pub mod Asset
pub mod Furniture
pub mod Assistant
pub mod Furnishing
pub mod Documented
pub mod Steps
pub mod Keeping
pub mod Fetching
pub mod Retries
pub mod Once
pub mod Redirects
pub mod Answers
pub mod Temporary
pub mod Workspace
pub mod UuidFormat
pub mod Sizes
pub mod Failing
