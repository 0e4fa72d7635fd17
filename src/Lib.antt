-- ===== src/Lib.antt =====
-- JetSocket is a WebSocket client in Python (jetsocket/, with a Cython core in
-- jetsocket/_core.pyx): a manager that connects, reconnects with backoff and replays buffered
-- messages, a multiplexer and a pool on top of it, and a transport below it.
--
-- Exceptions.antt: the exceptions of jetsocket/exceptions.py and results of calls.
-- State.antt: the connection states of jetsocket/state.py.
-- Ring.antt: RingBuffer of jetsocket/_core.pyx and _PythonRingBuffer of jetsocket/buffer.py. Defs
--   has a function for each method, named as the method; Queue is what they promise.
-- Buffer.antt: MessageBuffer of jetsocket/buffer.py, on the ring buffer.
-- Float.antt: Python's floats as an interface, with the laws that hold of finite ones; Whole is an
--   instance.
-- Backoff.antt: BackoffStrategy of jetsocket/backoff.py.
-- Stats.antt: _MutableStats and ConnectionStats of jetsocket/stats.py.
-- Heartbeat.antt: HeartbeatManager of jetsocket/heartbeat.py; its task is cut into the step up to
--   a ping and the end of the wait for a pong.
-- Events.antt: the event classes of jetsocket/events.py, and in Emitter its EventEmitter.
-- Dict.antt: Python's dict, for the other files.
-- Multiplex.antt: Subscription and Multiplex of jetsocket/multiplex.py, with the objects in a list
--   by place.
-- Pool.antt: ConnectionPool of jetsocket/pool.py, with the connections in a list by place; an
--   acquire may be cancelled at each of its waits.
-- Codec.antt: the frame codec of jetsocket/_core.pyx. Mask has _apply_mask_c, with the memory from
--   the index on as a list of octets and the words stored lowest octet first; Opcode the opcodes
--   and frames, also of jetsocket/types.py; Parse _parse_frame, cut at its stages; Encode
--   _encode_frame, with the random key as an argument; Feed the parser object and feed; Deflater
--   the class of that name, with zlib as the parameter Zlib.
-- Transport.antt: jetsocket/transport/. Base has what both transports share; Socket the loop of
--   _send_all; Sync SyncTransport; Async _WSProtocol and AsyncTransport. What the socket or the
--   event loop does is a script of reads, writes or events, and a call for which the script has no
--   more waits.
-- Uri.antt: jetsocket/transport/uri.py, with texts as lists of code points.
-- Handshake.antt: Handshake, HandshakeResult and validate_accept of jetsocket/_core.pyx. Texts has
--   the methods of str, Defs the class, cut at its checks, Answer a server's answer.
-- SyncClient.antt: SyncWebSocket of jetsocket/sync_client.py.
-- Manager.antt: WebSocket of jetsocket/manager.py. Defs has the object and what its methods share;
--   Send its sending and replaying; Connect its connecting, reconnecting and disconnecting; Loop
--   its receiving; Timers what its timers call. Methods that call one another in a loop take as a
--   list what the server and the user do, one element for each round; where the list ends, the
--   coroutine still waits. Events are noted in a log.
--
-- Sizes, counts and indices are natural numbers. The loops that empty a ring buffer take its
-- length as fuel, which is exact: each round takes one entry. The loop of feed takes the number of
-- octets in the buffer as fuel, which is enough: each frame takes two at least. The parser's sizes
-- are not wrapped, which is exact for a max_frame_size below 2 ^ 63 - 14.
--
-- Not modelled: the cancellation of other coroutines than the pool's acquire; Python's limit of
-- nested calls; name resolution and TLS, whose outcomes are arguments, as the request and the
-- outcome of the response's checks are for the transports, and a connection attempt's outcome, the
-- frames received and the bytes written are for the manager; a manager of the synchronous client
-- that cannot be made; handlers of events that call back into the manager; the parameters of
-- permessage-deflate; the texts of exceptions; serializers, which come in as the values that they
-- give. URIs are modelled by themselves, and the other parts do not look into them.
pub mod Prelude
pub mod State
pub mod Exceptions
pub mod Dict
pub mod Ring
pub mod Buffer
pub mod Float
pub mod Backoff
pub mod Stats
pub mod Heartbeat
pub mod Events
pub mod Manager
pub mod Multiplex
pub mod Pool
pub mod Codec
pub mod Uri
pub mod Handshake
pub mod Transport
pub mod SyncClient
