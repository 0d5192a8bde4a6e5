-- ===== src/Lib.antt =====
-- A verification library for qslary, a C++ network library: a growing byte array, sockets and
-- streams over the system's calls, HTTP messages, a session that receives requests and sends
-- responses, servlets that answer them, clients with a pool of connections, channels that a poller
-- watches, timers, fibers that threads run, and what is kept for each descriptor. The code is
-- under qslary/; each file here says which of its files it is about.
--
-- How the parts work together: a socket (qslary/net/Socket.cc) owns a descriptor. A socket stream
-- (qslary/net/SockStream.cc) is a stream (qslary/net/Stream.cc) over a socket, whose fixed-size
-- transfers call its virtual reads and writes. A session (qslary/http/HttpSession.cc) reads from
-- such a stream into a buffer, feeds the buffer to the request parser (qslary/http/HttpParser.cc),
-- whose callbacks fill in a request (qslary/http/Http.cc), and then reads the body. A dispatch
-- (qslary/http/Servlet.cc) picks the servlet that answers it, and the session prints the response
-- back; a server (qslary/http/HttpServer.cc) does so in a loop for each client. A client builds a
-- request, takes a connection from its pool, and reads the response
-- (qslary/http/HttpConnection.cc) through the response parser. A channel (qslary/net/Channel.cc)
-- tells the poller (qslary/poller/Epoller.cc) which events its descriptor waits for, and the
-- poller tells the kernel. A timer manager (qslary/net/Timer.cc) sets a descriptor for its first
-- timer and runs those that are due when it fires. An I/O manager (qslary/net/IOManager.cc) is a
-- scheduler (qslary/net/Scheduler.cc) and a timer manager: it hands the callbacks of descriptors
-- to the queue that the scheduler's threads take fibers from.
--
-- - Base: tests, lists, bits, integers, texts and memory that the parts share. A failed
--   assertion, a signed overflow or an access out of bounds is `none`. OrdMap is `std::map`, a
--   list in the order of its keys under the comparison of the program.
-- - ByteArray: qslary/net/ByteArray.h and ByteArray.cc. The buffer is a list of bytes, the
--   indices are numbers, sums of `size_t` wrap at 2 ^ 64. ByteArray/Queue and ByteArray/Reads
--   hold the theorems on the queue of readable bytes, ByteArray/Values those on typed values,
--   ByteArray/Zigzag the signed coding.
-- - Stream, Socket, SockStream: qslary/net/Stream.cc, Socket.cc and SockStream.cc. A stream is a
--   record of its virtual functions over a type of states; the kernel is a record of system
--   calls over a type of states. Stream/FixSize and SockStream/Transfers say what is carried,
--   Socket/Lifecycle follows a descriptor.
-- - Http: qslary/http. Http/Headers, Method, Status, Wire, Request and Response are Http.h and
--   Http.cc, Http/Parser the callbacks of HttpParser.cc, Http/Session is HttpSession.cc and
--   Http/Servlet Servlet.cc. Http/Server is HttpServer.cc. Http/Client and Http/Pool are the
--   requests and the connection pool of HttpConnection.cc; Http/Client/Receive reads a response,
--   and its child modules follow the feeding of the parser, the data of a chunk, and the chunks
--   of a body. Http/Client/Exchange is a request with its response over a new connection.
-- - Channel, Poller: qslary/net/Channel.cc, Poller.cc and qslary/poller/Epoller.cc. Channels are
--   shared objects, so a poller's state has a store of them by address; its map and the kernel's
--   interest list are kept beside it. Channel/Interest is on the switches of a channel,
--   Poller/Table, Poller/Registration and Poller/Removal on what the kernel knows.
-- - Timer: qslary/net/Timer.h, Timer.cc, TimerId.h and Timestamp.h. Timers are objects with
--   addresses, so the manager's state has a store of them; the two `std::set`s of pairs are
--   Base/PairSet. Timer/Managed is what holds between calls, Timer/Changes is on adding and
--   cancelling, Timer/Round is the code of a round, and its child modules follow it: what is
--   due, how it is taken out, what callbacks do, how timers start again, and the round as a
--   whole.
-- - Scheduler, IoManager: qslary/net/Scheduler.h, Scheduler.cc, IOManager.h and IOManager.cc.
--   Scheduler has an operation for each thing that a thread does to the queue and to the fiber
--   that it takes, with the states that the switches of qslary/base/Fiber.cc write, and
--   Scheduler/Queue is on which fiber a thread takes; the order in which threads take turns is
--   not modelled. IoManager/Events is on what the kernel is told, IoManager/Dispatch on the
--   callbacks.
-- - FdManager: qslary/net/FdManager.h and FdManager.cc. The vector of shared contexts is a list
--   of them; FdManager/Table sees it as a table.
-- - Examples: small concrete states, and the theorems at work on them.
--
-- Fuel: `read_loop` and `write_loop` run on one round more than there are bytes to transfer, which
-- is enough since a round that goes on has transferred one. `recv_request` takes its number of
-- rounds as an argument; one more than the bytes still to come is enough. `recv_response` has fuel
-- for each of its loops, two more than the bytes still to come; `handle_client` has fuel for its
-- rounds and passes it on to each; more than the peer sends in all is enough. All other functions
-- are structural.
--
-- Parameters, since their code is not in the repository or is generated: the system calls of a
-- socket, what the stream's peer sends, the machines of http_request_parser.cc and
-- http_response_parser.cc (their events for a piece of input, and the fields that the code reads),
-- `atoi`, the addresses that the allocator gives new timers, epoll, the resolver of host names,
-- the setter of an address's port, `boost::lexical_cast`, `fnmatch`, and the lengths that
-- `std::string::resize` can give. Laws that the theorems need of them are named records: `Carries`
-- and `CarriesBytes` say that a connection is a sequence of bytes and that a call transfers at
-- most what it was asked for; `IsLimited` says that a peer sends only so many bytes in all,
-- whatever it is sent; `IsEpoll` says what epoll(7) documents of an interest list, where a call
-- may be refused.
--
-- Not modelled: log lines, socket timeouts and flags, threads and locks, fibers and hooked calls,
-- the event loop, how threads are started and joined, addresses, the configuration, and the
-- generated parsers.
pub mod Base
pub mod ByteArray
pub mod Stream
pub mod Socket
pub mod SockStream
pub mod Http
pub mod Channel
pub mod Poller
pub mod Timer
pub mod Scheduler
pub mod IoManager
pub mod FdManager
pub mod Examples
