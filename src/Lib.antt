-- ===== src/Lib.antt =====
-- A distributed filesystem in the manner of AFS (Basic_Operation, FUSE): a server keeps the files and
-- a register of the clients that cache each of them, and tells those clients of every change over a
-- stream of notifications; a client keeps whole files in a local cache and writes a changed file back
-- when it is closed.
--
-- Which file models what:
--   Base, Text, Dict, Members: lists, `std::string`, `std::filesystem::path`, maps and sets.
--   Wire: the messages of Basic_Operation/proto_files/afs_operation.proto.
--   Os: what server and client use of the operating system, as operations on a disk that is a
--     parameter of the model; `IsFaithful` states the documented behaviour of files that the transfer
--     theorems rely on, and `Overwrites` of Client.ReadBack that of a write inside a file.
--   Server.Queue, State, Callbacks, Queries, Transfer, Namespace, Subscribe: class `FileSystem` and
--     `NotificationQueue` of Basic_Operation/server_code/filesystem_server.hpp, filesystem_server.cpp
--     and subscriber_handler.hpp, one function for each handler (`open_handler` is `FileSystem::open`,
--     and so on). Server.Calls puts them together as a step function.
--   Server.Store: the map from paths to bytes that `open`, `close` and `unlink` stand for, and what is
--     asked of a disk for that.
--   Server.WellFormed, Steady, Watches, Delivery, Inbox, Upload, Apart: lemmas; the other modules below
--     Server: proofs.
--   Client.State, Paths, Files: the fields of class `FileSystemClient` (Basic_Operation/client_code/
--     filesystem_client.hpp, file_attributes.hpp) and the paths it puts together.
--   Client.Stub: the calls of the gRPC stub, over a network that is a parameter.
--   Client.Connecting, Opening, Closing, Reading, Writing, Creating, Metadata, Subscriber: the calls of
--     filesystem_client.cpp, each under its own name, and the notifications of client_subscriber.hpp.
--   Client.Rekeying, Renaming: `update_map_keys` and `rename_file` of filesystem_client.cpp.
--   Client.Tables, Consistent, Lifecycle, Sessions: lemmas on the tables; Histories: sequences of calls;
--     the other modules below Client: proofs.
--   Fuse.Replies, Names, Data, Changes, Fixed: the handlers of FUSE/FUSE_integration.cpp, each under its
--     own name, over the calls of the client. Fuse.Bounds, Echo, Listing, Locations, Times: proofs.
--   System.Network: the stub of the client filled by the handlers of the server, over a transport that
--     loses and reorders nothing. System.Loopback, Stored: lemmas; Passing, Coherence: theorems on both sides.
--   System.World: a server and its clients, and the steps in which their calls, their subscriptions and
--     the deliveries of notifications interleave. System.Growth, Registered, Downloaded, Opened, Closed,
--     Interleaved: lemmas on these steps; Promise: theorems on every state they reach. Renewed: what a
--     client reads that opens a file again; Untold: two clients that have created one file.
--   Examples: a disk in memory, runs, and the theorems at concrete inputs.
--
-- How the state corresponds: a map or a set of the program is a list without repetitions; the queues
-- live in a heap and `subscribers` holds their addresses, since the program shares them by
-- `shared_ptr`. A handler is one step. That is exact for what it does under one lock, and it takes the
-- calls of one server one after another; `subscribe`, which waits, is cut into rounds. A mutex that is
-- never released is a field of the state, and a handler that waits for it ends with `blocks`.
--
-- Bounds and fuel: a file is read in chunks of 4096 bytes with one round of fuel for each byte, which is
-- enough since a round reads at least one; the three tries of a download and of an upload are counted
-- down as in the code; `subscribe_rounds` takes the number of rounds as an argument.
-- `update_map_keys` is a walk on fuel, one round for each key and byte of a key, and two more for each
-- key: where the new path is not at or below the old one, a key that is moved and matches again gets
-- shorter. Elsewhere the code can loop for ever, and `rename_file` is `none` when the fuel runs out.
-- The narrowing of `size_t` and `off_t` to `int` is written out (`to_int32`). Times are nanoseconds
-- since 1970 as native numbers; `uint32` fields wrap.
--
-- A call of the client is one step as well: what other threads of the same client do while the call has
-- given up `cache_mutex` is left out. A stream is a handle with its failbit, and `file_mutexes` is the
-- set of the paths that have a mutex. An output stream may hold back what it has taken, so the close
-- after a download is a call of its own that can fail. On the server a failing close is the same as a
-- failing last write: the code looks at neither.
--
-- Not modelled: `main` and the table of handlers that FUSE calls, the gRPC transport but for the results
-- of its calls, what happens while a call is in progress, log output, error messages, and times before
-- 1970 or past the range of `int64`. The steps of System.World leave out the calls that create, remove
-- or rename: these leave files cached for which the server registers nobody, or take registrations away.
pub mod Base
pub mod Client
pub mod Dict
pub mod Examples
pub mod Fuse
pub mod Members
pub mod Os
pub mod Server
pub mod System
pub mod Text
pub mod Wire
