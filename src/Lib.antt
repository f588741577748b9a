-- ===== src/Lib.antt =====
-- ecron: a C++ network library on boost.asio, with the buffers, timers and queues it rests on.
--
-- The parts, and the files here:
-- * Buffer.antt models code/Buffer.h and code/Buffer.cpp, the array of bytes that each connection
--   receives into and sends from. `std::vector` is a list and its `max_size`; indices are numbers
--   below 2 ^ 64 and wrap. A call that throws std::length_error is `length_error`, an access out of
--   range or with an invalid pointer is `fault`. Buffer/Inv, Space, Fifo, Run and Wrap prove.
-- * TimingWheel.antt models code/TimingWheel.h, code/TimingWheel.cpp and code/TimerId.h, the wheel of
--   60 buckets that an event loop ticks each second. Timers live in a heap that maps an address to a
--   timer; a bucket is a list of addresses, in the order in which the set visits them. What
--   `operator new` returns is an argument. A timer's callback is recorded and not run, so it does not
--   call back into the wheel.
-- * TcpConnection.antt models code/TcpConnection.h and code/TcpConnection.cpp, one connection: its
--   queue of buffers, its receive buffer, the socket's pending operations, and what the owner's
--   callbacks call. What asio reports to a handler (bytes, or an error) is the handler's argument.
-- * BlockingQueue.antt models code/BlockingQueue.hpp, the bounded queue between threads, and
--   BlockingQueue/Threads.antt the steps of any number of threads over it.
-- * LockFreeQueue.antt models code/LockFreeQueue.hpp, whose push and pop are there the accesses of a
--   thread to the shared nodes, one by one, and LockFreeQueue/Run.antt the runs of any number of
--   threads. The accesses happen in one order; `operator new` returns no address a second time.
-- * CircularQueue.antt models code/CircularQueue.hpp, the ring that is to drop its oldest item when it
--   is full. `vector_` is the list of its elements, of which `reserve` makes none; a remainder by 0 is
--   a fault, and so is an access beyond the elements.
-- * TcpServer.antt models code/TcpServer.h and code/TcpServer.cpp: listening, the accepts and the set of
--   connections; a connection is there its address, number and loop, and what the acceptor reports is an
--   argument.
-- * TcpClient.antt models code/TcpClient.h and code/TcpClient.cpp: the attempts, the retries and the end
--   of a client's one connection, over the models of the connection and of the wheel. What it asks of
--   asio and of the loop is a list of requests, and asio's answers are arguments. TcpClient/Run.antt
--   holds its runs, together with those of the loop's wheel.
-- * EventLoopPool.antt models code/EventLoopPool.h and code/EventLoopPool.cpp, the choice of a loop for
--   a new connection; a loop is its address, which the creation of loops takes as an argument.
-- * ThreadPool.antt models code/ThreadPool.h and code/ThreadPool.cpp, threads that take tasks from a
--   BlockingQueue; what a task does is left out.
-- * ThreadGroup.antt models code/ThreadGroup.h and code/ThreadGroup.cpp, workers with a queue each, given
--   out in turn; a worker is an address into a heap.
-- * Rpc.antt models the framing of examples/rpc/RpcChannel.cpp: a message's header and body in a
--   buffer, written by pack_send and read by process. Protocol buffers and asio's byte order
--   are a parameter, Codec. Rpc/Calls.antt models the rest of it with RpcController.h and
--   RpcController.cpp: CallMethod, the open requests, process_message and the answer; the user's methods
--   and the allocator are parameters, and the closures that run are recorded.
-- * Rpc/RpcServer.antt and Rpc/RpcClient.antt model examples/rpc/RpcServer.h, RpcServer.cpp, RpcClient.h
--   and RpcClient.cpp, which give a connection's bytes to its channel; Rpc/Ends.antt joins process and
--   process_message for them. A codec for the tests stands in Rpc/Plain.antt.
-- * Http.antt models examples/http/HttpRequest.h, HttpRequest.cpp, HttpResponse.h and HttpResponse.cpp,
--   Http/Task.antt examples/http/HttpTask.h and HttpTask.cpp, which http_parser calls back and which
--   answers a request, Http/Server.antt examples/http/HttpServer.h and HttpServer.cpp, which gives the
--   bytes of a connection to its task, Http/Host.antt the start of that server and what a connection is
--   given, and Http/Site.antt the callbacks of examples/http/HttpMain.cpp.
--   http_parser, the decimal numbers of fmt, the file system, the regular expression and the database are
--   parameters; the state of the files is a World that process_file changes.
-- * Sql.antt models examples/http/SqlConnPool.h and examples/http/SqlConnPool.cpp, the pool of database
--   connections, each the handle that mysql gave.
-- * Prelude.antt and its modules hold what these share: tests, lists, 64-bit sizes, and `Outcome`, the
--   result of a call that can throw or fault.
--
-- A connection owns one Buffer to receive into and a queue of Buffers to send; the rpc channel and the
-- http task read the first and write into a new one. A server and a client own connections, and learn
-- of their end by a callback; the server takes each one's loop from the pool of loops, and the client
-- waits for its retry on the loop's wheel. Loops are recursion on the list they walk, but for that of
-- process, which runs on fuel; the theorems on it say how much is enough. A call that throws
-- std::out_of_range is `out_of_range`.
--
-- Not modelled: threads other than those of BlockingQueue, LockFreeQueue and ThreadPool, since a
-- connection's handlers run in its loop's thread; sockets, logging and the set-up of options, which
-- are I/O; LockFreeArrayQueue, whose push stores nothing; orders of memory that are weaker than one
-- order of all accesses; a worker of the rpc server that runs beside the loop; the loop, which is
-- asio's; the main programs, which connect the parts. http_parser and spdlog are copies of other
-- projects, and the files that the protocol compiler made are generated.
pub mod Prelude
pub mod Buffer
pub mod TimingWheel
pub mod TcpConnection
pub mod BlockingQueue
pub mod Rpc
pub mod EventLoopPool
pub mod Http
pub mod Sql
pub mod TcpClient
pub mod TcpServer
pub mod ThreadPool
pub mod ThreadGroup
pub mod LockFreeQueue
pub mod CircularQueue
