-- ===== src/Lib.antt =====
-- Verification of the C core of the skynet server: the actor runtime that holds services, gives
-- each a message queue and a handle, and drives them from worker threads and a timer.
--
-- The parts, and how they interact. A service has a message queue (skynet-src/skynet_mq.c). A queue
-- with work is linked into the global queue, from which worker threads take it
-- (skynet-src/skynet_server.c, skynet-src/skynet_start.c). A service is found by its handle in the
-- registry (skynet-src/skynet_handle.c). The timer thread moves the wheel
-- (skynet-src/skynet_timer.c), which pushes a message to a service when its timeout comes. The gate
-- (service-src/service_gate.c) is the service that takes clients' connections: it cuts what a socket
-- brings into packets, by way of a buffer (service-src/databuffer.h), and sends them to services; a
-- hash (service-src/hashid.h) leads from a socket to its connection. Each of these structures is
-- guarded by a lock (skynet-src/spinlock.h, skynet-src/rwlock.h). Clients log in by a key exchange
-- and DES (lualib-src/lua-crypt.c), and the messages that they exchange with the server are packed
-- (lualib-src/sproto/sproto.c).
--
-- The files.
--   Common             shared names: Boolean tests, lists, byte arrays, chains of nodes, families and
--                      their sums, and the bits and the exclusive or of native numbers
--   MessageQueue       the ring of one queue: skynet_mq_create, _length, _overload, _pop, _push and
--                      expand_queue on `struct message_queue`. Inv: the invariant. Fifo: the ring as
--                      a list. Overload: the overload mark. History: any history of calls. Frame:
--                      which fields each call keeps
--   GlobalQueue        the heap of queues and the global list: skynet_globalmq_push and _pop, and
--                      skynet_mq_create, _push, _pop, _mark_release and _release on the whole memory.
--                      Chain: the linked list. Drop: _drop_queue. Ownership: the invariant that each
--                      queue has one place. Operations: each function keeps it. Protocol: what the
--                      threads may call, as a step relation, and what every run keeps
--   Handle             the registry: skynet_handle_init, _register, _grab and _retire. Hash: the
--                      search for a slot. Inv: the invariant. Doubling: the rehash. Register, Retire:
--                      the two operations. Names: skynet_handle_findname and _namehandle, and the
--                      whole of _retire, with Compare for strcmp, Search, Insert, Naming, Remove
--                      and Retiring, and RetireAll for _retireall
--   Timer              the wheel: timer_create_timer, add_node, timer_add, move_list, timer_shift,
--                      timer_execute, timer_update and skynet_updatetime. Wheel: where a node belongs.
--                      Pending: how often a node is on the wheel. Shift, Tick: the move to a new
--                      time. Fire: one tick. OnTime: many ticks
--   Databuffer         databuffer_push, _read, _readheader, _reset, _clear and the pool of nodes.
--                      Stream: the chunks as one stream. Nodes, Returned: that each node of the pool
--                      has one place. Header: the length in front of a packet
--   Gate               dispatch_message and _forward of the gate, and lpack of
--                      lualib-src/lua-netpack.c, which writes what the gate reads. Forward: the
--                      message to the broker, the agent or the watchdog. Cut: the steps
--                      of the same split on lists. Framing: the loop against it. Packets: what was
--                      packed. Resume, Segments: bytes that come in pieces. Stuck: a negative header
--   Hashid             service-src/hashid.h, from the ids of sockets to the slots of connections. Size:
--                      the array of buckets. Inv: the invariant. Search, Insert, Remove, Removed:
--                      the operations. Table: any history of them
--   Send               skynet_send, _filter_args, skynet_context_newsession and the outcome of
--                      skynet_context_push of skynet-src/skynet_server.c, with skynet_harbor_send
--                      and the rest of skynet-src/skynet_harbor.c. Fields: the bits of handles and
--                      sizes. Routing: each outcome of a send
--   Locks              the spinlock (skynet-src/spinlock.h) and the reader-writer lock
--                      (skynet-src/rwlock.h), atomic step by atomic step. Exclusion, Waiting: what
--                      holds in every interleaving
--   Sproto             sproto_pack and sproto_unpack of lualib-src/sproto/sproto.c. Encoded: the packed
--                      form. Segments, Laid, Rounds, Pack, Packed, Ending: the writer. Unpack, Fuel:
--                      the reader. RoundTrip: both
--   Crypt              lualib-src/lua-crypt.c. DiffieHellman: dhexchange and dhsecret, with Multiply
--                      and Power for the arithmetic in 64 bits and Exchange for the two sides.
--                      Base64 and Hex: the two encodings of bytes. Des: the cipher on one block, with
--                      Tables, Keys, Permutations, Feistel and Blocks; Texts: desencode and
--                      desdecode with their padding
--   Monitor            skynet-src/skynet_monitor.c, write by write. Writes: what they leave.
--                      Check: what a look reports
--
-- State is passed explicitly. A function of C that holds its lock from the first access to the last is
-- one function of the model, so the interleavings of threads are orders of whole calls. Two places
-- have no such lock. skynet_monitor_trigger writes to its monitor without one, and its three writes are
-- three steps of the model, with looks in between; a look itself is taken as one step, as if the worker
-- did not run within it. skynet_context_new writes
-- ctx->handle after the registry's lock is released; the model takes this write and the registration as
-- one step, and a test shows what may go wrong in between. `none` is a failed assertion, an access to
-- freed or null memory, or an index that overflows, where a function's comment says so. Words of 32
-- and 64 bits keep their wrap-around written out; an `int` that never goes below zero is a native
-- number, and where its overflow can be reached with the ids and sessions that the program makes, the
-- model has it: in hashid_insert, in skynet_context_newsession and in the header of a packet. The
-- capacity of a message queue is an `int` whose doubling would overflow at 2^30 cells; this, like the other
-- bounds that only gigabytes of memory reach, is not modelled.
--
-- Fuel. The loop of timer_shift has four rounds and that of timer_execute two, the outer loop of
-- skynet_handle_register two, that of skynet_handle_retireall two, and the loop of _drop_queue one
-- round more than there are messages; the theorems show that none of them runs out. So do those on
-- the search for a name, with one round more than there are names, on the loop of dispatch_message,
-- with one round more than there are bytes, on mul_mod_p and pow_mod_p, with 65 and 64 rounds by the
-- bits of a word, and on the walks along a chain of hashid.h, with as many rounds as there are
-- nodes. The loop of skynet_mq_pop on the threshold has as many rounds as there are messages.
-- sproto_unpack has one round more than there are bytes, which Sproto.Fuel shows to be enough.
--
-- Not modelled: the allocator, the readings of the clocks, sockets, the locks on pthread, the hashes
-- of lua-crypt.c, the other Lua bindings, and the libraries under 3rd. A timer that another thread
-- adds while the timer thread dispatches without the lock is not modelled: here timers are added
-- between ticks.
pub mod Common
pub mod Crypt
pub mod MessageQueue
pub mod GlobalQueue
pub mod Handle
pub mod Timer
pub mod Databuffer
pub mod Gate
pub mod Send
pub mod Monitor
pub mod Locks
pub mod Sproto
pub mod Hashid
