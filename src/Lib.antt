-- ===== src/Lib.antt =====
-- The core of the server: messages, the services that queue them, the workers that run the services,
-- the manager that makes and destroys them, and the stores and codecs beside these.
--
-- The program. The server runs many services, each a Lua state of its own with a queue of messages. A
-- message (ServiceMsg) is an object with a buffer; the objects are used again through a pool
-- (ServiceMsgPool) that all threads share. Lua code, timers, sockets and HTTP responses fill a message
-- and push it to a service (Service::pushMsg). A worker thread polls one service at a time
-- (Service::poll): it hands every queued message to Lua as a table and gives the object back to the
-- pool. The service manager (ServiceMgr) makes services, for each of which it claims a worker
-- (WorkerMgr); a service is either bound to this worker or shared, and then its number waits in a queue
-- from which idle threads take it. A destroyed service is closed at once and deleted by the main loop.
-- Beside this core stand what Lua reaches by bindings: the sockets and the HTTP clients, whose answers
-- arrive as messages, the store of configs, JSON, XML and protocol buffers, the databases, the shared
-- environment, the conversion between text encodings and a codec for hexadecimal text.
--
-- The files.
-- - Prelude: what the others share. Prelude/Monad has the type `Outcome`: a call returns, never leaves
--   a loop over `try_lock` (`blocks`), or is undefined (`fault`). Prelude/Table is `std::map` by
--   ascending number, Prelude/Dict `std::unordered_map` with texts for keys, Prelude/Int the integers.
-- - Msg: src/service/msg/serviceMsg.hpp and .cpp, with the table that src/service/service.cpp builds of
--   a message; Msg/Fill has the handlers that fill one (src/lua/luaApi.cpp, src/service/luaService.cpp,
--   src/http/client/luaHttpClient.cpp and the callbacks of the sockets).
-- - MsgPool: src/service/msg/serviceMsgPool.hpp and .cpp.
-- - Service: src/service/service.hpp and .cpp.
-- - WorkerMgr: src/worker/worker.hpp, workerMgr.hpp and workerMgr.cpp.
-- - Server: src/service/serviceMgr.hpp and .cpp over the pool, the workers and the services;
--   Server/Sound has the invariant, Server/History the calls as one type and their histories,
--   Server/Boot the start by src/main.cpp.
-- - Main: readConfig of src/main.cpp; Main/Settings is on the start script, Main/Start has main up to the
--   call of this script.
-- - LuaApi: what src/lua/luaApi.cpp keeps beside the Lua states; LuaApi/Envs is on the environment.
-- - Threads: src/worker/worker.cpp, the threads with their interleavings.
-- - TcpServer: src/socket/tcp/server/tcpServer.hpp and .cpp, src/socket/tcp/session/tcpSession.hpp and
--   .cpp, and the null pointer of src/socket/tcp/server/luaTcpServer.cpp.
-- - TcpServerMgr: src/socket/tcp/server/tcpServerMgr.hpp and .cpp, and the functions of luaTcpServer.cpp
--   by a server's number.
-- - TcpClient: src/socket/tcp/client/tcpClient.hpp and .cpp, with src/socket/tcp/client/luaTcpClient.cpp
--   on one client; TcpClientMgr: src/socket/tcp/client/tcpClientMgr.hpp and .cpp, and luaTcpClient.cpp
--   by a client's number.
-- - Websocket: src/websocket/server/websocketServer.hpp and .cpp; Websocket/Phases has the life of one
--   connection number, Websocket/Callbacks the callbacks with the pool and the services.
--   WebsocketServerMgr: websocketServerMgr.hpp and .cpp beside it, and luaWebsocketServer.cpp.
-- - Registry: what the callers of the two managers of servers see, as an interface that both managers
--   implement: a map from numbers to objects. Registry/Calls has the sequences of calls.
-- - Config: src/config/configMgr.hpp and .cpp, and src/config/luaConfig.cpp (Config/Read for the
--   bindings that read). Lua has the Lua values that they take and return.
-- - HttpClient: src/http/client/httpClientMgr.hpp and .cpp and the bindings of luaHttpClient.cpp;
--   HttpRequest has what these read from Lua, HttpClient/Answers the callback with the pool and the
--   services, HttpClient/Calls the sequences of calls and answers.
-- - Json: src/json/json.cpp. Json/Decode has the translation of a tree into a table with the stack that
--   it takes, Json/Encode the tables that come back.
-- - Xml: src/xml/xml.cpp. Xml/Trim is on the texts, Xml/Encode has the calls of the writer as elements,
--   Xml/ElementTable and Xml/Writes are on tables that decode makes, and Xml/RoundTrip has what is left
--   of a document that is decoded and encoded.
-- - Mysql: src/sql/mysql/mysql.cpp; Mysql/Columns is on one row, Mysql/Query and Mysql/Exec are on the
--   tables of rows, Mysql/Errors on the errors. Redis: src/sql/redis/redis.cpp.
-- - Proto: src/protobuf/protobuf.cpp. Proto/Laws says what the code relies on of the protobuf library,
--   Proto/View has the normal form of a table, Proto/Ends and Proto/Loops are on the recursions, and
--   Proto/Binding has the functions that Lua calls.
-- - Encode: src/encode/encode.hpp and .cpp.
-- - Crypto: src/crypto/util/util.cpp.
-- - Tests: runs and instances of the theorems.
-- Functions have the source's names in lower case with underscores: `newService` is `new_service`.
--
-- How the state is represented. A `Service*` is the number that the service was made with, a `Worker*`
-- the index of the worker; the heap maps numbers to the services that are not deleted, so that a use
-- after deletion is a fault. A mutex is a truth value, and a call that takes one that is taken blocks:
-- in the theorems on one thread at a time nobody else gives it back. A call of a method is one step,
-- except in Threads, where a step is the part of the loop between two accesses to shared state. Numbers
-- of 32 bits are natural numbers below 2 ^ 32, with the conversions written out; the number of services
-- is assumed to stay below 2 ^ 31 where a theorem says so. The calls of the manager in Threads are one
-- step each: that `newService` pushes to the queue of free services without its mutex, and so races with
-- a thread that takes from it, is not shown. Loops are by recursion on the list or the count that they
-- run through, and have no bound on their steps, but for the two recursions of Proto, which take the
-- number of nested calls that the C++ stack has room for.
--
-- Parameters. Lua and the file system (`Host`: which files exist, whether a script loads, whether a
-- state has the callback), ICU's converter (`Icu`), the conversions between C++ and Lua numbers
-- (`Numbers`, `Conversions`), the reflection, pool and serialization of the protobuf library
-- (`Reflection`, `Library`), the parser and the printer of cJSON (`JsonLibrary`), the parser and
-- the writer of libxml2 (`XmlLibrary`), what the clients of MariaDB and Redis answer, what the network
-- libraries answer and report, and the order of an `unordered_map` (`MapOrder`).
--
-- Not modelled: the bindings of Crypto++, the calls that open and close connections to databases, the
-- log, the file system, the main loop, and the Lua code. A table that `init` reads has no key
-- that is a number and also, as a text, another key. Lua tables are finite trees: one that holds itself,
-- or has metamethods, is left out. The entries of a table stand for the order of `lua_next`; a table that
-- the code makes has them in the order of insertion, which for two text keys or more need not be that of
-- `lua_next`. The slots of the Lua stack are counted in Json and Redis, and not in Proto, Xml and Config.
pub mod Config
pub mod Crypto
pub mod Encode
pub mod HttpClient
pub mod HttpRequest
pub mod Json
pub mod Lua
pub mod LuaApi
pub mod Main
pub mod Msg
pub mod MsgPool
pub mod Mysql
pub mod Prelude
pub mod Proto
pub mod Redis
pub mod Registry
pub mod Server
pub mod Service
pub mod TcpClient
pub mod TcpClientMgr
pub mod TcpServer
pub mod TcpServerMgr
pub mod Tests
pub mod Threads
pub mod Websocket
pub mod WebsocketServerMgr
pub mod WorkerMgr
pub mod Xml
