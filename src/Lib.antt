-- ===== src/Lib.antt =====
-- A model of the server core of DDZProject, under Server/skynet.
--
-- The server is a set of services that send messages to each other. Each service has a message
-- queue; worker threads take a queue from a global list, pop messages from it, and put it back.
-- Timers and network input are turned into messages. Clients log in with a Diffie-Hellman
-- exchange, whose keys travel as base64 and hex.
--
-- Prelude: shared names, lists over native numbers, `&` and `|` as arithmetic (Bits), membership
--   (Members), tests by evaluation (Range), the reading of a ring of slots (Round), which is
--   the copy loop of `expand_queue`, `^` (Xor), and remainders by powers of two (Powers).
-- Mq: Server/skynet/skynet-src/skynet_mq.c, whole. `MessageQueue` is `struct message_queue`,
--   `Memory` the heap of queues with the global list of `struct global_queue`; a pointer is the
--   number of a cell and `none` stands for a failed assert or the use of freed memory. Mq/Ring,
--   Mq/Fifo and Mq/Pop are about one queue: a ring, against the sequence of its messages.
--   Mq/Chain and Mq/Global are about the list, against the sequence of its queues. Mq/Schedule
--   is a step relation: any interleaving of the senders and of the workers, each of which holds
--   a queue between the pop of the global list and the pop that finds it empty or the push that
--   puts it back, as `skynet_context_message_dispatch` of skynet_server.c does. Mq/Threads,
--   Mq/Run and Mq/Safety are about its reachable states. An operation runs under a spin lock, so
--   it is one step. The release of a queue is modelled and left out of the step relation.
-- Timer: Server/skynet/skynet-src/skynet_timer.c. `Timer` is `struct timer`: the near wheel of 256
--   lists, four levels of 64, and a clock of 32 bits that wraps. Timer/Place and Timer/Wheel say
--   where a node stands, Timer/Due what a shift does, Timer/Update what a tick does. What the
--   clocks of the system read is an argument.
-- Crypt: Server/skynet/lualib-src/lua-crypt.c, its key exchange (Key, Dh, Power, Agree), hex and
--   base64, and DES: Crypt/Des/Tables has the boxes, Crypt/Des/Schedule is `des_main_ks`,
--   Crypt/Des/Block is `des_crypt` with its macros, Crypt/Des/Text is `ldesencode` and `ldesdecode`.
--   Crypt/Hash has the hashes and `hmac`, Crypt/Digest what `lhmac_hash` has of them and `lxor_str`
--   twice, Crypt/Random is `lrandomkey`. A Lua string is the list of its bytes. Base64 and DES tell
--   apart the sizes that leave an `int`: `none` of `b64encode` and `beyond_int` of DES stand for them.
-- Handle: Server/skynet/skynet-src/skynet_handle.c. `Storage` is `struct handle_storage`, with the
--   slots of the contexts and the table of names; an operation runs under a lock, so it is one step.
--   A context is known by its address. `put_context` is the locked part of `skynet_handle_register`,
--   `store_context`, and `assign_handle`, which `skynet_context_new` does after the lock is given back;
--   that another operation comes between the two is not in the model, but in one run of its tests. Handle/Slots, Handle/Free, Handle/Grow, Handle/Owner,
--   Handle/Put, Handle/Fresh and Handle/Register are about the slots, Handle/Order, Handle/Names,
--   Handle/Lookup and Handle/Insert about the names, Handle/Retire and Handle/Thinned about what a
--   retirement takes away, Handle/Steps about all sequences of operations,
--   Handle/All about `skynet_handle_retireall`.
-- Netpack: Server/skynet/lualib-src/lua-netpack.c, and the loops of gateserver.lua that call it. `Queue` is
--   `struct queue` with its ring of packets and its hash of packets that are not whole;
--   Netpack/Ring, Netpack/Pop and Netpack/Waiting are about these two, Netpack/Advance,
--   Netpack/More, Netpack/Fill and Netpack/Stream about the cutting of one buffer, Netpack/Gate,
--   Netpack/Received and Netpack/Unique about a whole stream. Which sockets have a connection is a
--   parameter, and it stays so while a stream comes in.
-- Lock: Server/skynet/skynet-src/rwlock.h, which guards the storage of Handle. A system is the two words
--   of the lock and the place of each thread; a step is one access of one thread, so the spinning
--   loops are steps that come back to their place. Lock/Total and Lock/Counts count threads,
--   Lock/Safety and Lock/Progress are about all interleavings.
-- Buffer: Server/skynet/service-src/databuffer.h, the buffer that the gate reads packets from.
--   `DataBuffer` is `struct databuffer`, its chain a list of messages. Buffer/Read is about the
--   sequence of bytes that it stands for, Buffer/Header about packets with a header.
-- Gate: Server/skynet/service-src/service_gate.c, what the gate does with the bytes of a connection.
--   It calls Buffer; what it sends and closes are the effects of a step. How `snprintf` writes a number
--   is a parameter. Gate/Frames is about streams of packets behind their headers, Gate/Rounds and
--   Gate/Step about one round of the loop of `dispatch_message`, Gate/Forward about one message of a
--   socket, Gate/Stream about a sequence of them, Gate/Fuel about the end of the loop, Gate/Dropped about
--   a connection without a receiver.
-- Seri: Server/skynet/lualib-src/lua-seri.c, which turns the values of a message between services into
--   bytes. `Value` is a Lua value; `luaseri_pack` writes a chain of blocks of 128 bytes, Seri/Unpack is
--   the reader. Seri/Spec has the bytes that stand for a value, the value that is received, and the
--   values that fit (`Fits`). Seri/Blocks and Seri/Pack are about the writer, Seri/Integer, Seri/Reads,
--   Seri/Head, Seri/Table and Seri/Roundtrip about the reader on what was written, Seri/Ends and Seri/Fuel
--   about the reader on any bytes.
-- Cluster: Server/skynet/lualib-src/lua-cluster.c, the requests between nodes. Cluster/Words is about the
--   words in the packets, Cluster/First about the first packet of a request, Cluster/Parts about the parts
--   of a long one, Cluster/Request about what arrives of a request. Responses are not modelled.
--   The size that `lconcat` takes is cut to an `int`, and of a negative one it gives `none`.
--
-- Bounds and fuel. Arithmetic on `uint32_t` and `uint64_t` has its wrap written out. The sizes of
-- a queue are unbounded where the source has `int`: memory ends first. The multiplication halves a
-- word of 64 bits, so 64 rounds are enough, and so does the recursion of the power. The scan of
-- `timer_shift` has a round for each of the four levels. The loop that doubles the overload
-- threshold has as many rounds as the queue has messages. The loop of base64 takes a
-- character or more each round, so one round more than the text has characters is enough; so does the recursion
-- of `push_more`, and the loop that pops a ring has `cap` rounds. The
-- loop of `register` finds a handle after one growth, so two rounds are enough, and the binary
-- search of names halves what is left, so that one round more than there are names is enough. The
-- second round of `retireall` finds nothing to retire, so two rounds are enough. The
-- reader of values takes a byte with each value, and has four calls for each byte and four more.
-- `wb_push` has a round more than there are bytes. Each round of `dispatch_message` but the last takes a
-- header, so the bytes that are there, with those of a header that is pending, are enough.
--
-- Not modelled: sockets, threads, the allocator and Lua's own machine, which are system calls or
-- other projects' code; lsha1.c and the remaining services.
pub mod Prelude
pub mod Mq
pub mod Timer
pub mod Crypt
pub mod Gate
pub mod Netpack
pub mod Handle
pub mod Lock
pub mod Buffer
pub mod Seri
pub mod Cluster
