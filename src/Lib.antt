-- ===== src/Lib.antt =====
-- Verification of boost_server_example, a server of WebSocket messages over Boost.Asio and Beast.
--
-- The program (paths from the root of the repository). src/main.cpp starts a NetworkManager and then
-- dispatches, in a loop over a TickManager, the messages that the sessions have queued. The
-- NetworkManager (src/net/NetworkManager.cpp) owns a WSServer and a WsListener. The listener accepts
-- connections and makes a WsSession of each, which the server keeps by id. A session reads messages;
-- the first byte of one is an operation code, for which a CallbackManager has a callback, and the
-- callback and the message go to the DispatchQueue of the session. The main loop runs it: a ping is
-- sent back, and a CSV table is parsed and answered with its number of rows. client/main.cpp is a
-- client over the same classes, which sends the table in a file.
--
-- The files:
--   Base: shared names, Boolean tests, lists over the native numbers; Base.Result: code that faults.
--   Csv: src/algo/CSV.cpp. `parse_data`, `load_from_memory` and, in Csv.Access and Csv.Files, the
--     accessors and the file methods. Csv.Table says, with no scanner, which rows a text has;
--     Csv.Reload is about a table that has rows already.
--   Opcode, Callbacks, StringUtils, TickManager, DispatchQueue: the files of these names in src/algo
--     (Opcode is NetworkOperation, Callbacks is CallbackManager). `Runner` of DispatchQueue is a
--     state with a queue in it, on which callbacks work; DispatchQueue.Workers has worker threads.
--     StringUtils.Dates has the dates.
--   WsSession: src/net/websockets/WsSession.cpp and src/net/SessionBase.cpp. A handler takes the
--     session to the next one and the calls it makes. WsSession.Conn has the operations under way
--     and the relation `Move`: which handler can run next, with whatever result. WsSession.Link has
--     the two ends of a connection, WsSession.Interleaved the statements of `send` and `on_write`
--     on two threads, and WsSession.Silence the timer of a session whose peer is silent.
--   SessionManager: src/net/SessionManagerBase.hpp, the sessions by id; SessionManager.Unordered is
--     the quotient that forgets their order.
--   WsCallbacks: the callbacks in src/net/websockets/WsServer.cpp.
--   WsServer: the class WSServer of the same file. Sessions stand in a store, pointers are places.
--     WsServer.System has the relation `Move` of all that can happen to the server; WsServer.AnyOrder
--     compares the loops over the sessions in different orders.
--   WsListener: src/net/websockets/WsListener.cpp and src/net/NetworkManager.cpp.
--   Log: src/log/Logger.cpp, the sinks of the log; the core of Boost.Log is an argument.
--   Config, Storage: src/config/ServerConfig.cpp and src/storage/path.cpp.
--   Program: src/main.cpp; Program.Client: client/main.cpp, whose functions follow `main` from one
--     return to the next. Program.Exchange has the sessions of a client and of a server together.
--   Tests, and a module Tests in each larger part: runs at fixed inputs.
--
-- How the model stands to the code. A handler or a method is one step: the strand of a session, or a
-- mutex, is held through it. What Asio, Beast and the clock answer is an argument, and so are file
-- contents, the time zone and the conversion of texts to floating-point numbers. The theorems on the
-- callbacks hold for any functions on dates; `system_dates` of WsCallbacks has those of the program.
-- `std::get_time` is the one of POSIX; where a text does not fit the format, the standard libraries
-- differ in how much of it they take. Undefined behaviour, an exception that nothing catches,
-- `std::terminate` and a failed assertion are faults of `Result`.
-- `unsigned int` and `uint32_t` wrap at 2^32. Sizes of containers are taken to be unbounded but where
-- the code narrows them.
--
-- Fuel. `load_from_memory` takes one unit for each block of 2048 bytes and one more; a unit for each
-- byte and one more is enough. `dispatch_queued` takes one for each callback queued and one more.
-- `wait_for_connect` takes one for each millisecond of its limit and one more; `waits` of a client is
-- the fuel of its wait. `main_loop`, and `loop` of the programs, take one for each tick: they never
-- end, so the theorems say what holds after any number of ticks.
-- `to_string` has ten digits, enough for 32 bits.
--
-- The send of a callback runs on the thread of the main loop, outside the strand of its session. Most
-- theorems take it as a step of its own; WsSession.Interleaved has its statements between those of
-- `on_write`, each access being atomic, and WsSession.Interleaved.Alone compares the two views.
--
-- Not modelled: what a data race does beyond such interleavings, what the threads of Asio run between
-- two statements of a `main` (it is an argument at the wait for a connection and before each tick),
-- which records the code logs, formats of dates other than the default one, and the making of random
-- ids, which are arguments.
pub mod Base
pub mod Config
pub mod Storage
pub mod Log
pub mod Csv
pub mod Opcode
pub mod Callbacks
pub mod StringUtils
pub mod TickManager
pub mod DispatchQueue
pub mod WsSession
pub mod SessionManager
pub mod WsCallbacks
pub mod WsServer
pub mod WsListener
pub mod Program
pub mod Tests
