-- ===== src/Lib.antt =====
-- RenderStudioKit keeps one OpenUSD scene in step between several users. Each user's program holds
-- the layers in a data object that records the local edits and applies the remote ones; a server
-- numbers the edits of each layer, keeps them as a history and passes them on; WebSockets carry the
-- texts.
--
-- Parts and files:
--   Usd             what the program takes from OpenUSD: the types and queries of paths, tokens and
--                   values, as a record that every module takes as an instance argument
--   Data            Sources/Resolver/Data.cpp, class RenderStudioData. Data.State: the members, and
--                   CreateSpec, EraseSpec, MoveSpec, Has, Get, List. Data.Edit: Set, Erase and
--                   FetchLocalDeltas. Data.Layer: the SdfLayer and state delegate that the data calls,
--                   as a parameter with its documented behaviour (Forwards). Data.Merge and Data.Apply:
--                   ApplyDelta. Data.Process: AccumulateRemoteUpdate and ProcessRemoteUpdates.
--                   Data.TimeSamples: the time samples, with times that are never NaN. The
--                   other modules of Data are named for what they prove.
--   Notice          Sources/Notice/Notice.cpp, PrimitiveChanged, and the choice of the notices sent
--   Serialization   Sources/Serialization. Serialization.Api: the events that clients and server
--                   exchange (Api.h). Serialization.Json: what is used of Boost.JSON. Serialization.Forms,
--                   Matrices and Values: the JSON forms of Serialization.cpp and Serialization.h.
--                   Serialization.Events: those of Api.cpp, and ParseEvent. The other modules are named
--                   for what they prove.
--   Server          Sources/Server/Channel.cpp and Logic.cpp, the handlers of the server
--   Networking      Sources/Networking. Networking.WebsocketSession and WebsocketClient: the write queues
--                   of WebsocketServer.cpp and WebsocketClient.cpp. Networking.ClientConnection: all
--                   handlers of WebsocketClient.cpp, with the operations that they start;
--                   Networking.SessionConnection: those of a session in WebsocketServer.cpp.
--                   Networking.Listener: the server that accepts connections, and their first request.
--                   Networking.SessionNames: the channel and user of a session. Networking.Url: Url.cpp.
--                   Networking.Workspace: Workspace.cpp. The other modules are named for what they
--                   prove.
--   Resolver        Sources/Resolver/Resolver.cpp. Resolver.Paths: which paths are Render Studio's and where
--                   they lie. Resolver.Assets: identifiers and what is opened. Resolver.Session: the live
--                   session.
--   FileFormat      Sources/Resolver/FileFormat.cpp and Registry.cpp: FileFormat.Registry, the layers in
--                   use; FileFormat.Events, the handlers of arriving messages; FileFormat.Loading, Read
--                   and the reloads; FileFormat.Original, the choice of a layer's original
--                   format; FileFormat.LiveUpdates, ProcessLiveUpdates. The other modules are
--                   named for what they prove.
--   Downloads       what is fetched and put into files. Downloads.Host: what is used of std::filesystem,
--                   libzip, the HTTP library and random numbers, and the steps of a program that may
--                   throw. Downloads.RestClient: Sources/Networking/RestClient.cpp.
--                   Downloads.Packages, MaterialLibrary and LocalStorage: MaterialLibraryApi.cpp and
--                   LocalStorageApi.cpp. Downloads.Asset: Sources/Resolver/Asset.cpp.
--                   Downloads.FileUtils and Uuid: Sources/Utils/FileUtils.cpp and Uuid.cpp.
--                   Downloads.Furniture and Assistant: Sources/Schema/AiTools.cpp.
--                   Downloads.Documented: what the file system promises. The other modules are named
--                   for what they prove.
--   Shared          dictionaries, conditionals, lists, options, and texts as bytes
--   Examples        the theorems at concrete inputs, and tests
--
-- How the parts interact: a client sends what FetchLocalDeltas returns as a DeltaEvent; Server.Logic
-- gives it the next number of its layer, sends it to the other users and an AcknowledgeEvent to the
-- sender; the file format of a client collects both (FileFormat.Events), and process_live_updates puts
-- them under their numbers into the queue of the data of their layer, where process_remote_updates
-- applies what follows without a gap.
--
-- State and operations: a class is a record of its members, a method a function that returns the new
-- record and what it sends. A mutex held for a whole method makes it one step. std::map, std::set and
-- TfHashMap are association lists in the order of their keys (Shared.Dict); a hash map promises no
-- order, so this is one that it may have. The rest of a pointer, nullptr, is Option. std::size_t wraps
-- at 2 ^ 64. What is asynchronous is a list of pending operations, of which one at a time completes, in
-- any order, with or without an error, and its handler is one step; the handlers of one object are taken
-- not to overlap. Texts that the code walks are lists of bytes.
--
-- Bounds and fuel: five definitions are not structural. The fuel of ProcessRemoteUpdates is the length
-- of the queue; every round takes an entry out, and the theorem on it says that it stops because the
-- next number is missing and not for want of fuel. The fuel of json_to_value bounds how deep
-- dictionaries are nested, and a value is read with one more than its own depth. The fuel of the loop
-- over a URL's query is the length of the query, and each round reads at least one byte. The
-- fuel of a request bounds the redirects that are followed, and one more than their number is enough;
-- redirects that go round in a circle use up any fuel, as the recursion of the code does not end. The
-- fuel of the loop that looks for a free temporary directory bounds the names that are tried.
--
-- Errors: an exception of a form is `none`, and where the code catches it the caller says what is left.
-- The conversions of values and matrices (Serialization.Conversion) tell an exception, undefined
-- behaviour and the end of the fuel apart; as a form for the events, only a value that is returned
-- counts.
-- A step of a download ends with a value or an exception, and keeps the files and the requests that it
-- made before it threw; destructors run in between. An exception out of a destructor, and undefined
-- behaviour, are outcomes of their own.
--
-- Not modelled: the log, TF_VERIFY's diagnostics, sockets and timers (Boost), how Boost.JSON prints and
-- parses a text (a parameter, Printer), OpenUSD and std::filesystem themselves (parameters Usd, Layer,
-- Storage, Formats, FileSystem, Host and Scene), the HTTP library and libzip (Host), the instructions
-- for the assistant, a text (Scene), uriparser (UriParser),
-- what the system answers to the workspace client (System), the certificates of Windows, Python
-- bindings, generated schema code and the workspace application. In the downloads the questions whether
-- a path exists or is a regular file are taken not to throw, and a directory is listed before its
-- entries are moved.
pub mod Shared
pub mod Usd
pub mod Notice
pub mod Data
pub mod Serialization
pub mod Server
pub mod Networking
pub mod FileFormat
pub mod Resolver
pub mod Downloads
pub mod Examples
