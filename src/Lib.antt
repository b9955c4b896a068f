-- ===== src/Lib.antt =====
-- kvstore-epoll: an HTTP server on epoll in front of a key-value store.
--
-- The parts of the program, and the files about them:
--   Memory       kv_core/kvstore.cpp: kvstore_malloc and kvstore_free, on an allocator that may
--                refuse and whose memory may hold anything; the pointers of C strings.
--   Hash         kv_core/hash.cpp: the hash table of the store. Hash/Chain is one bucket, Hash/Table
--                the types with _hash, _create_node and init_hashtable, Hash/Ops the operations,
--                Hash/Disk save_to_disk and load_from_disk. Hash/View says which map a table is and
--                when its representation is in order; Hash/Index, Hash/Put, Hash/Delete, Hash/Modify,
--                Hash/Destroy, Hash/Same, Hash/Write and the files below Hash/Disk hold the proofs.
--   Kvstore      kv_core/kvstore.cpp: Kvstore/Split is kvstore_split_token, Kvstore/Protocol
--                kvstore_parser_protocol, kvstore_request, init_kvengine and exit_kvengine. The
--                specification of the commands on a map is in Kvstore/Commands, that of lists of them
--                in Kvstore/Session, of two processes in Kvstore/Durable, and of any message at all in
--                Kvstore/Messages; Kvstore/Abstract is the store up to the order of its chains. The
--                other files hold the proofs.
--   RingBuffer   network/connect_info/ring_buffer.cpp.
--   Http         network/protocol_parser: Http/Parser is class HttpParser, Http/Factory the parser
--                factory with its registrations, Http/View the operations of std::string_view and
--                std::stoul that they call. Http/Post is the text of a POST as a client writes it.
--   Connection   network/connect_info/connect_info.h: read, write, reset and convert_request.
--   Router       task_and_router/Router.h and http_task.h: the table of routes and the two tasks.
--                Router/Order has the comparisons of the keys of the two maps.
--   ConnPool     utils/memory.h: the pool of connection objects. ConnPool/Blocks is its life,
--                ConnPool/End its destructor with that of a connection.
--   Sockets      network/tcp.cpp and network/epoll.cpp, on what the system calls return.
--   Server       Webserver.h and Webserver.cpp: Server/Events holds the handlers deal_NewConn,
--                deal_Read, close_conn and timer_task, Server/Signals sigint_handler and del_signal,
--                Server/Loop the loop EventLoop, Server/Timers the callbacks of the timers,
--                Server/Start the constructor, and Server/End the destructor with those of the members
--                and main of src/main.cpp. Server/Logged is the loop and the callbacks again, with
--                their calls of the log. Server/Safe, Server/Stops, Server/Reads, Server/Posts,
--                Server/Clients, Server/Visits, Server/Closed and the children of Server/Logged hold
--                the proofs.
--   ThreadPool   utils/threads_pool.cpp: enqueue, the workers and shutdown as a step relation, in
--                ThreadPool/Steps, of the sections under the lock. ThreadPool/Workers is a finer one,
--                with the workers that sleep, the notifications and the futures, and has waitAll and
--                the destructor; ThreadPool/Order, Simulates, Wakeups and Futures hold the
--                proofs.
--   Timer        timer/timer.cpp: Timer/Clock holds the timers, as steps under the lock of the class,
--                Timer/Thread the rounds of their thread, Timer/Stop its steps, with the stop flag
--                and the wake-ups of the destructor; Timer/Fired, Timer/Rounds and the children of
--                Timer/Stop hold the proofs.
--   Log          log/log.cpp: Log/Format is what is printed, Log/Write the log with its files.
--                Server/Logged has the macros of log/Log.h.
--   SqlPool      CGImysql/sql_connection_pool.cpp, which the build leaves out: SqlPool/Pool is the
--                pool, SqlPool/Use the threads that use it.
--   Prelude      bytes, C's int, lists over native numbers, and the result type Run.
--   Tests        the theorems at concrete inputs.
--
-- A request comes in by `read` into the ring buffer of its connection; `convert_request` asks the
-- factory for a parser and the parser for a request; the router gives the task for the request's
-- method and URL; the task hands the body to `kvstore_request`, which works on the hash table.
--
-- Behaviour that C++ leaves undefined, or that ends the process, is the result `fault` of the type
-- Run: an index outside an array, a null or an unset pointer that is followed, a failed assertion,
-- an exception that nothing catches. Strings are lists of bytes without the ending NUL; text
-- literals stand for ASCII. C's int is the integer type of Prelude/Int, with a truncating `%`;
-- additions are exact, so values that would leave 32 bits are outside the model. Sums of size_t are
-- taken modulo 2 ^ 64.
--
-- Loops are recursions on lists and counts. Three run on fuel: the loop of strtok and the loop of
-- fgets take the number of bytes left, since each round takes at least one, and the digits of a
-- decimal number take the number itself and one more.
--
-- The environment is a parameter: what malloc grants, what a fresh array holds, what recv and send
-- return, what the calls of sockets and epoll return, the time, the data file and whether it opens
-- (writes to an open file succeed), the log's formatted messages where the server does not give
-- them, what the MySQL library returns, and the size of a connection object.
--
-- The event loop takes its schedule as a list, round by round: what epoll_wait returns, with the
-- answers of the calls that the handling of each event makes. Of the events of the list, epoll
-- reports those of descriptors that it watches. The objects of the pool are a field of the server;
-- since they overlap, what another object reads as after one is written is the environment's. The stop flag is tested before each
-- round and each event, as in the code; the list bounds the rounds. The thread of the timers takes a
-- list of delays, one for each round.
--
-- The log asks for the time and opens a file at each call of write_log; what it gets is a function
-- of the number of the call. The thread of the timers, the other threads and the destructor take
-- their steps in any order, which is a list.
--
-- The destructor of the pool reads a whole object in each block: one that does not end inside the
-- memory of the pool is a fault. Two things that C++ leaves undefined are no fault here: that
-- kvstore_parser_protocol ends without a return value, which nothing reads, and that an object is
-- destroyed again, whose entry stays in the map.
--
-- Not modelled: add_timer_log, which nothing calls, the peer's address, and what the program prints
-- on the terminal. What two threads do at once to data that no lock guards is outside the model.
pub mod Prelude
pub mod Memory
pub mod Hash
pub mod Kvstore
pub mod RingBuffer
pub mod Http
pub mod Connection
pub mod Router
pub mod ConnPool
pub mod ThreadPool
pub mod Timer
pub mod Log
pub mod SqlPool
pub mod Sockets
pub mod Server
pub mod Tests
