-- ===== src/Lib.antt =====
-- The media server of DCJ_RTC: xrtc_server/src, a signaling server that takes requests of clients
-- over TCP and a media server that answers them with session descriptions.
--
-- How the parts work together. A signaling worker (server/signaling_worker.cpp) runs an event loop.
-- The listener hands it descriptors, and it keeps a table of connections, cuts a request out of the
-- bytes of each, and queues an `RtcMsg` for the media server. The media server
-- (server/rtc_server.cpp) adds its certificate and hands the message to the media worker that the
-- stream's name chooses. The media worker (server/rtc_worker.cpp) makes a stream and its offer
-- (stream, pc), and gives the message back to the signaling worker, which writes the reply to the
-- connection, if that is still there. Threads wake each other by a number in a pipe.
--
-- Which file models which part; paths are from xrtc_server/src unless they name another directory:
--   Base/EventLoop    base/event_loop.cpp, the masks of watchers and the timers; History follows a
--                     watcher over its life, Loop has the calls on the loop
--   Base/Queue        base/lock_free_queue.h: Queue has the operations, Fifo one call at a time,
--                     Threads the two threads interleaved at each access to the shared nodes
--   Base/Socket       base/socket.cpp; Setup has the calls that make sockets
--   Base/Log          base/log.cpp: the operations, the steps of the thread that writes, and what
--                     becomes of the messages
--   Base/Conf         base/conf.h and base/conf.cpp; Exact says what is read
--   Wire              base/xhead.h, and signaling/src/framework/xrpc/header.go at the other end
--   Signaling/Conn    server/tcp_connection.h and .cpp
--   Signaling/Framing `_process_query_buffer` of server/signaling_worker.cpp
--   Signaling/Request `_process_request` and `_process_push`
--   Signaling/Worker  the table, `_new_conn`, `_close_conn`, `_remove_conn`, `_process_timeout`
--   Signaling/Handlers `_read_conn`, `_write_conn`, the replies and the notifications; Reading and
--                     Requests read one request, Drains writes the replies
--   Signaling/Server  server/signaling_server.cpp; Init has `init`, `_create_worker` and `start`, and
--                     `init` and `start` of server/signaling_worker.cpp
--   Signaling/Table   what is true of the table between two events, and the destructor of
--                     server/signaling_worker.cpp
--   Signaling/Events  the callbacks of the event loop and the two queues of a signaling worker
--   Rtc/Msg           base/xrtcserver_def.h
--   Rtc/Codec, Sdp    pc/codec_info.h, pc/session_description.h and .cpp; Sdp/Lines reads text as its
--                     receiver does
--   Rtc/Peer          pc/peer_connection.h and .cpp; Peer/Lines has the lines of the offer to a push
--   Rtc/Streams       stream; History has runs of pushes
--   Rtc/Worker        server/rtc_worker.cpp
--   Rtc/Server        server/rtc_server.cpp; Init has `init` and `_create_worker`, Notices the queue and
--                     the pipe between the threads
--   Main              main.cpp, up to the `join`
--   Proxy/Xrpc        signaling/src/framework/xrpc/request.go and response.go
--   Proxy/Client      signaling/src/framework/xrpc/selector.go and client.go, and `Call` of
--                     signaling/src/framework/xrpc.go
--   Proxy/Push        signaling/src/action/push.go
--   Round             a push through all threads and back; Accept has the way of a connection from the
--                     listener to a worker's table, Request that of a call from the client to the
--                     media server's queue, Call the whole way from the client to the client,
--                     Browser that from a browser's form to what is written to the browser
-- Prelude has the shared names, lists, integers, texts and the results of runs; Examples has the
-- theorems at concrete inputs.
--
-- How state is modelled. A class is a record of its fields. Objects that are made and deleted live
-- on a heap, a function from addresses, and a pointer is an address, 0 for `nullptr`; reading
-- through a pointer to no object is `fault`, as any other undefined behaviour is, and so is the end
-- of the process where an exception leaves a destructor or a thread is deleted that was not joined.
-- A loop without a bound runs on fuel, or on the list of the kernel's answers, and `out_of_fuel`
-- says that it goes on: the framing loop returns within three rounds, and the other loops have
-- theorems that say what is enough. Numbers are natural numbers with the wrap-around of their width
-- written out where a value can reach it; `int` has its own type. Where C++ code ends a function
-- without the value that it should return, behaviour is undefined by the language, whether or not
-- the value is used; what a build makes of it is a parameter, `unreturned`, a number or `fault`,
-- beside the libraries of the thread that has the function: in `JsonCpp` for `_process_request` and
-- `_process_rtc_msg`, in `RtcBase` for `set_rtcp_mux`, and for `SignalingServerWorker::init` an
-- argument of its own. Theorems say where they are about a build that goes on.
--
-- What is not part of the repository is a parameter: libev is the record `Libev` with the laws
-- `IsLibev` of its manual, JsonCpp is the record `JsonCpp`, yaml-cpp the record `Yaml`, the
-- fingerprints of rtc_base are in `RtcBase`; its certificates, checksums and random strings,
-- answers of system calls and fresh addresses are arguments. Memory accesses of the queue take effect in the order of the
-- steps, and so do the steps of the log's thread, which are those between two of its locks.
--
-- Not modelled: the loop of libev itself and how long a `join` waits, what a line of the log says,
-- the ports of the configuration, which nothing reads; base/openssl_compat.cpp, whose functions are
-- one call each; the copy of rtc_base; of the HTTP front end in Go all but its calls of the
-- server and the handler of a push; the web pages.
pub mod Prelude
pub mod Base
pub mod Wire
pub mod Proxy
pub mod Rtc
pub mod Signaling
pub mod Main
pub mod Round
pub mod Examples
