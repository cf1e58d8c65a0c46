-- ===== src/Networking.antt =====
-- Sources/Networking: the queues of texts that wait to be written to a WebSocket.
pub mod Queue
pub mod Workspace
pub mod WorkspacePings
pub mod WebsocketSession
pub mod WebsocketClient
pub mod ClientConnection
pub mod InOrder
pub mod Stalled
pub mod Pending
pub mod Promises
pub mod Closing
pub mod Opening
pub mod Url
pub mod UrlRoundTrip
pub mod UrlFuel
pub mod SessionNames
pub mod Naming
pub mod SessionConnection
pub mod Listener
pub mod Listening
pub mod Accepting
pub mod Protocol
