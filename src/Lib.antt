-- ===== src/Lib.antt =====
-- An end-to-end encrypted messenger with a server in C++: what the server stores, who may reach it,
-- and what goes over the wire.
--
-- The program's parts. A client sends a frame (server/src/frame.cpp). The connection handler
-- (server/src/connection_handler.cpp) answers a login in the clear. Any other frame carries a token
-- and a message sealed in the channel of the token's session (server/src/secure_channel.cpp), under
-- a sequence number that both sides count. The opened message goes to the frame router
-- (server/src/frame_router.cpp), which reads its fields (server/src/protocol.cpp) and calls the
-- service (server/src/api_service.cpp). The service asks the session manager who calls, and works
-- on the groups, their directory, the queue of messages and the stored files.
--
-- The files, each with the code that it models:
--   Common       lists, bytes, machine words, maps with string keys, runs that may write outside of
--                a buffer (Run), results with an error message (Result)
--   Protocol     WriteString, ReadString and their kin; offsets are arguments and results
--   Frame        EncodeFrame and DecodeFrame
--   Crypto       Crypto/Sha is Sha256 (Crypto/Fips has the standard's constants
--                and examples); Crypto is HmacSha256 and HkdfSha256
--   Pake         DeriveKeysFromPake, DeriveKeysFromCredentials, DeriveMessageKey
--   Channel      class SecureChannel
--   Auth         the interface AuthProvider, as a record of its two functions; Auth/Backends the demo
--                backend and the choice of a backend, Auth/Password VerifyPassword, Auth/Tables
--                the backend with a database (server/src/auth_provider.cpp)
--   Session      class SessionManager; Session/Reach has its histories as a step relation
--   Group        class GroupManager
--   Directory    class GroupDirectory
--   Queue        class OfflineQueue (server/src/offline_storage.cpp)
--   Storage      class OfflineStorage (server/src/offline_storage.cpp)
--   Database     the calls of the client library of MySQL, and the steps that its users share
--   Api          class ApiService; Api/Friends its friendships, Api/Tables the same in a database,
--                Api/Calls its logins and files
--   Router       FrameRouter::Handle; Router/Reading its requests, Router/Encoding its replies
--   Connection   ConnectionHandler::OnData
--   Ini          the text helpers of server/src/config.cpp, and what a line of a file says
--   Config       LoadConfig; Config/Users is LoadDemoUsers, Config/Clients is LoadClientConfig
--                (client/src/client_config.cpp)
--   App          class ServerApp (server/src/server_app.cpp), and mi_server_create
--   Capi         server/src/c_api.cpp and server/src/listener.cpp
--   Client       class ClientCore (client/src/client_core.cpp): the channel to the server;
--                Client/Calls has the operations in it, Client/Start is Init
--   Ui           class BackendAdapter (client/ui/qq_main_list/BackendAdapter.cpp): Ui/Payload is the
--                form of its messages, Ui/Adapter its operations; Ui/Conversation is class
--                MessageModel
--   Console      HexToBytes, BytesToHex and the answer with --stdin (server/src/main.cpp)
--   Network      one connection of NetworkServer::Run (server/src/network_server.cpp)
--   Secure       class ScrambledString (shard/secure_types.cpp); Secure/Values is class
--                ScrambledValue (shard/secure_types.h), Secure/Handles and Secure/Strings are the C
--                functions over both
--   Runs         each theorem at concrete inputs
-- The child modules of a part hold its theorems, named for what they are about.
--
-- Conventions. A byte is a natural number below 256 (IsByte), a string is its list of bytes. A state
-- is a record that an operation takes and returns. Sums of unsigned integers are reduced modulo
-- their width. A reading of the clock, in its ticks, and the bytes of a random generator are
-- arguments. An unordered map is an association list with one entry for each key. Locks are left
-- out: each operation is one step. `HmacSha256` has a buffer of fixed size on the stack; where the
-- program writes behind it, the model's run is `fault`, and what depends on its result says so.
--
-- Fuel. A round of Channel.keystream_loop and of Storage.crypt_loop makes or takes a byte at
-- least, so that they are given the number of bytes; Crypto.hkdf_rounds and the rounds of the
-- hash run exactly as often as the code's loops. The client's loops over a reply run as often as
-- the reply says; Ini.to_decimal has one round more than the value of its number, which has no
-- more digits than that.
--
-- The client. A server in the process is a part of the client's state, so that one call of the
-- client runs the whole server on its request. `TcpRoundTrip`, which is not looked into, is an
-- argument of the operations, with the world that it acts on.
--
-- The database. The client library of MySQL is a parameter: a function from the history of its calls
-- to what the last one returns, so that it may fail at any call and in any order. What the server of
-- the database does with its tables is a hypothesis of the theorems that need it, HasTable and
-- HasAccounts, where no call fails; but the `ALTER TABLE` that the program runs each time may fail,
-- as it does where the column is there. HasTable speaks of short names and remarks of ASCII
-- characters alone (is_name, is_remark): the columns cut others, and compare without blanks at the
-- end.
--
-- The user interface. What it uses of Qt is a parameter, the record Qt, with documented laws in IsQt;
-- the operations of the client that it calls are an interface, the record Core.
--
-- What is not modelled: the handling of sockets and threads, and the windows, which call the system
-- and Qt; the functions that only release memory; and the start-up in server/src/main.cpp.
pub mod Common
pub mod Protocol
pub mod Frame
pub mod Crypto
pub mod Pake
pub mod Channel
pub mod Auth
pub mod Session
pub mod Group
pub mod Directory
pub mod Queue
pub mod Storage
pub mod Secure
pub mod Database
pub mod Api
pub mod Router
pub mod Connection
pub mod Ini
pub mod Config
pub mod App
pub mod Console
pub mod Network
pub mod Capi
pub mod Client
pub mod Ui
pub mod Runs
