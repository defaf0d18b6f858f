-- ===== src/Lib.antt =====
-- jsocket, JSON messages over TCP with a length-prefixed frame: a model of the Python package
-- jsocket and what holds of it.
--
-- A message is a header of twelve bytes (the magic "JSN1", the length and the CRC-32 of the payload,
-- big-endian) and a payload of UTF-8 JSON. jsocket/jsocket_base.py has the framing, the socket
-- wrapper JsonSocket with its timeouts, and on it JsonServer and JsonClient. jsocket/tserver.py has
-- servers in threads: ThreadedServer serves one client after another, ServerFactory hands each
-- connection to a ServerFactoryThread; all keep statistics per client.
--
-- Framing, with Bytes, Crc, Header and Frame: FRAME_MAGIC, FRAME_HEADER_FMT, struct.pack and
--   struct.unpack of it, and zlib.crc32 computed bit by bit.
-- Codec: decoded JSON values, and the four conversions (json.dumps, encode, decode, json.loads) as an
--   interface, with which texts json.loads refuses by a JSONDecodeError. json and UTF-8 are not code of
--   the repository; IsLossless is the law that the program relies on, and Tests has a codec that keeps
--   it.
-- Os: a socket of the operating system: whether it is open, its timeout, what its next recv and send
--   calls meet, and what was handed over. A recv meets a segment of any length, a timeout or an
--   OSError; a send takes any number of bytes or raises an OSError. Os.Stream, Os.Sending and
--   Os.Halves say what these scripts amount to.
-- JsonSocket: the attributes of the class, with socket and conn as references to sockets, so that
--   both may be the same one; State is the object with all sockets of the process. A method is a
--   function from a state to a result or an exception, with the state after it. Init, Close,
--   Timeouts, Write (send_obj, _send), Read (_read) and Message (_read_header, read_obj) have the
--   methods; their child modules have what holds of them. Message.Spec has what read_obj promises, as
--   a parser of the bytes to receive.
-- JsonServer and JsonClient: the two subclasses. is_server selects the _close_connection that
--   JsonServer overrides. What accept, bind and connect meet is an argument.
-- Exchange: messages from one end of a connection to the other.
-- Dict: a Python dict with str keys, in insertion order.
-- Stats: the statistics of jsocket/tserver.py, one function for each module function (note_connect
--   for _note_connect and so on). Merge has _merge_client_stats and _rekey_stats_map, Identity
--   _extract_client_id and _set_client_identity, Session _record_client_start and
--   _clear_client_stats, Failures _framing_failure_kind, Snapshot _format_client_stats and
--   get_client_stats of a ThreadedServer. Count has the lemmas on sums, Balanced those on connects and
--   disconnects.
-- Serving: one pass of the loop that ThreadedServer._handle_client_messages and
--   ServerFactoryThread.run share; ThreadedServer and ServerFactoryThread have the loops. What a client
--   receives is in ThreadedServer.Replies, and what reading and sending leave alone in
--   JsonSocket.Local.
--   ThreadedServer.Closed has the sockets that a server has open, ThreadedServer.Lifecycle start, stop
--   and the places of run as steps of two threads, ThreadedServer.Wakeup the wakeup sockets.
-- ServerFactory: its statistics over the workers and the archive. Init has __init__, Handover one pass
--   of the accept loop of run with the hand-over to a worker, Run the loops around it and the exit,
--   Stopping stop_all in rounds: what a worker has served when it ends is an argument, on which its
--   _note_disconnect follows.
--
-- NetServer: scripts/net_server.py, the echo server: the handler of EchoWorker, and in Report the text
--   of format_stats. NetClient: scripts/net_client.py: what it draws and sends, Sending with the
--   frames that it breaks on purpose, Modes with its loops, worker and exit code. Session has a
--   client and the worker that serves it. What secrets draws is an argument.
--
-- Timeouts, timestamps and durations are natural numbers, ticks of a clock; the monotonic clock does
-- not go back. Logging is left out. Every block under _stats_lock is one step. Threads are
-- interleaved in ThreadedServer.Lifecycle, which leaves out what a server does with a connection and
-- takes a server that has its wakeup sockets. Elsewhere they are not: what ServerFactory sees of its
-- workers, and whether they are alive at each is_alive, is an argument. What a wait for the wakeup
-- sockets gives is an argument of wait_for_accept. Left out are the parsing of arguments, the pauses
-- and the printing of the scripts, scripts/smoke_test.py and the examples.
mod Prelude
pub mod Framing
pub mod Codec
pub mod Os
pub mod JsonSocket
pub mod JsonServer
pub mod JsonClient
pub mod Exchange
pub mod Dict
pub mod Stats
pub mod Serving
pub mod ThreadedServer
pub mod ServerFactoryThread
pub mod ServerFactory
pub mod NetServer
pub mod NetClient
mod Tests
