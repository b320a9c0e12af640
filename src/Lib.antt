-- ===== src/Lib.antt =====
-- NetNinja, a C++ server framework: byte buffers for network data, timers, fibers with a scheduler
-- over epoll, sockets, and HTTP.
--
-- Files. Each module names the C++ file it models; paths are from the repository's root.
--   Common      lists over the native numbers, tests, bit operations as arithmetic, and `Outcome`:
--               a call returns (`ok`), throws std::out_of_range, runs into undefined behaviour
--               (`fault`, such as a null node dereferenced), or aborts at an assertion (`aborted`).
--   ByteArray   src/bytearray.cpp and src/bytearray.h: the chain of nodes. A `ByteArray` has the
--               fields of the class; the chain from m_root is a list of nodes, m_cur an index into
--               it, and the length of the list the null pointer. `write`, `read`, `set_position`,
--               `clear`, `add_capacity` are the methods of these names. Children: Loop (the memcpy
--               loops on the bytes of the chain), Invariant, Place (where the position lies),
--               Contract (`write`), Slices (`read`, `setPosition`), RoundTrip, Vectors
--               (getReadBuffers and getWriteBuffers), Tests.
--   Codec       src/endian.h and the typed reads and writes of src/bytearray.cpp: fixed-width
--               integers, varints, zigzag and strings, over ByteArray. Values are bit patterns.
--   Timer       src/timer.cpp and src/timer.h: a `TimerManager` is the set of its timers, as the
--               ordered list of their addresses, and the store of the timer objects. Children: Order
--               (the comparator and the set), Invariant, Calls (addTimer, cancel, refresh, reset),
--               Expiry and Rearm (the loops of listExpiredCb), Fired (listExpiredCb), Steps (calls
--               in any order, and getTimerNext), Tests.
--   Servlet     src/http/http_servlet.cpp and src/http/http_servlet.h: the exact and the glob table of
--               a `ServletDispatch`, and the servlet of a path. fnmatch is a parameter. Children:
--               Table, Match, Tests.
--   HttpConnectionPool  src/http/http_connection.cpp and src/http/http_connection.h: the connections
--               that wait, and the counter. The state of a socket and the making of a connection
--               are parameters. Children: Reuse, Total, Tests.
--   Stream      src/stream.cpp: the loops of readFixSize and writeFixSize over a stream that takes the
--               bytes in parts, which is a parameter. Children: Whole (reading), Sent (writing),
--               Tests.
--   IoManager   src/iomanager.cpp and src/iomanager.h: the events that fibers and callbacks wait for.
--               epoll_ctl is a parameter. Children: Context, Table, Triggered (one context), Calls
--               and Running (addEvent), Deleted, Cancel, Ready (the loop of idle), Steps, Idle, Tests.
--   FdManager   src/fd_manager.cpp and src/fd_manager.h: the contexts of the descriptors, as places in
--               a store of objects. fstat and fcntl are parameters. Children: Known, Shared, Tests.
--   Scheduler   src/scheduler.cpp, src/scheduler.h and src/fiber.cpp: the queue, a turn of `run`, cut
--               where the context switches, and the states of a fiber. Children: Choice, Runs and
--               Turns (how a turn starts), Ends, Tests.
--   Hook        src/hook.cpp: do_io, which waits in a hooked call. The system call, addEvent and the
--               wait are parameters; addEvent may abort, and the wait may not end. Children: Retry, Tests.
--   Http        src/http/http.cpp and src/http/http.h: Methods and Statuses (the tables), Headers (the
--               maps), Messages (requests and responses). strcasecmp, lexical_cast and the printing
--               of a number are parameters. Parser has the callbacks of src/http/http_parser.cpp.
--               Further children: Names, Lookup, Sorted, Ascii (for tests), Dump, Parsed, Tests.
--   HttpSession src/http/http_session.cpp: recvRequest and sendResponse. The stream and the generated
--               parser are parameters. Children: Parsed (the head), Body, Sent, Tests.
--   HttpConnection  src/http/http_connection.cpp: recvResponse and, in Requests, the requests of a
--               client. The stream and the generated parser are parameters. Children: Chunk,
--               Parts and Chunks (the body in chunks), Received, Requests, Loop and Built (headers),
--               Target (the url), Answered, Tests.
--   Logger      src/logger.cpp and src/logger.h: Levels, Pattern (LogFormatter), Loggers (appenders,
--               loggers and their table), Config (the listener of LogIniter). Further children: Split
--               and Printed (the pattern of a list of items), Delivered and Served (what is written),
--               Lookup, Defined and Configured (after a new configuration), Tests.
--   Config      src/config.cpp and src/config.h: the variables, their listeners and the files that set
--               them. YAML is a tree, and its parser a parameter. Children: Names, Loaded, Files,
--               Tests.
--   Env         src/env.cpp and src/env.h: the arguments of the program and its paths. Children:
--               Given, Tests.
--
-- Bounds. Numbers are natural; a conversion to a w-bit type is `% 2 ^ w`. size_t positions and
-- sizes do not wrap, since a buffer is far smaller than 2^64 bytes; `ceil` on doubles in addCapacity
-- is exact below 2^53. The loops are recursions on the chain, on the room left in the stack buffer
-- of a varint, or on the rounds of its reader. The loops of Stream have fuel, the number of bytes: each
-- turn moves at least one. Those of HttpSession, HttpConnection and Hook have more than the bytes that
-- the stream gives, and than the calls that do not end the loop.
-- Times are milliseconds, and `now + ms` is taken modulo 2^64.
-- Memory from `new char[n]` is the parameter `Allocator`; a failing allocation is not modelled, nor
-- is the destructor. The machine's byte order is the parameter `host`.
--
-- Interaction. A socket's bytes come through Stream into a ByteArray, and Codec reads typed values
-- from it. A fiber that waits for a socket registers with IoManager, which hands it to a Scheduler
-- when epoll reports the event; between reports IoManager sleeps for what getTimerNext of Timer says,
-- and then runs what listExpiredCb hands out. It stops when Timer, its own events and Scheduler are
-- done. Hook waits so in a blocking call, for the time that FdManager has for the descriptor.
-- HttpSession reads a request of Http, which is answered by the servlet that Servlet finds for its
-- path. A client takes its connection from HttpConnectionPool; HttpConnection sends a request of Http
-- on it and reads the response. Config reads the files below a path that Env gives, and tells its
-- listeners; the one of Logger sets the loggers.
--
-- Not modelled: the hooks of src/hook.cpp other than do_io, the switch of contexts, the start and stop
-- of threads, and epoll_wait itself, which belong to the operating system; files (writeToFile,
-- readFromFile), toHexString, floats (readFloat and writeFloat reinterpret the bits of the fixed-width
-- integers), addConditionTimer, the bodies of the servlets; sockets, addresses, the reading and
-- printing of YAML, the generated parsers of src/http, and the database helpers. Locks are not
-- modelled: what a lock guards is one step.
pub mod Common
pub mod ByteArray
pub mod Codec
pub mod Timer
pub mod Servlet
pub mod HttpConnectionPool
pub mod Stream
pub mod IoManager
pub mod FdManager
pub mod Scheduler
pub mod Http
pub mod HttpSession
pub mod Hook
pub mod Logger
pub mod Env
pub mod HttpConnection
pub mod Config
