-- ===== src/Lib.antt =====
-- A verification library for a peer-to-peer node written in Go: its lock-free containers, its wire
-- protocol, its transactions and their pool, its peers and their connections, the broadcast of messages,
-- the discovery of peers, and the node that ties them together.
--
-- The parts of the program and how they interact:
-- pkg/node runs a node. It keeps peers (pkg/peer) that pkg/discovery finds, talks to each through a
-- connection (pkg/transport) that carries the messages of pkg/protocol, and gossips transactions,
-- which wait in the pool of pkg/mempool. pkg/ds has the containers, once lock-free and once under a
-- lock.
--
-- Which file models what:
-- - Prelude.antt (with Prelude/Tests.antt, Prelude/Lists.antt, Prelude/Arrays.antt and
--   Prelude/Selection.antt): shared names,
--   tests on numbers, lists, and lists as slices. Run.antt: how a Go call ends, with a value, an error
--   or a panic. Bytes.antt: byte slices, encoding/binary and copy; Bytes/Laws.antt, Bytes/Writes.antt
--   and Bytes/Reads.antt: reads and writes at offsets. GoMap.antt (with GoMap/Laws.antt,
--   GoMap/Keys.antt, GoMap/Totals.antt, GoMap/Orders.antt and GoMap/Sweep.antt): Go's maps, in any
--   order, and a loop that deletes. Heap.antt: Go's container/heap, which the pool
--   and the priority queue use; in Heap/: Order, Up, Down and Operations.
-- - LockFree/Queue.antt: pkg/ds/lockfree/queue.go. `step` is one access to shared memory by a
--   goroutine that stands at a `Pc`; `Reach` is reachability under every interleaving of any number
--   of goroutines. LockFree/Queue/Invariant.antt, Growth, Moves, Link, Steps and Reachable: the
--   invariant of the linked list. Fifo, Observations and Progress: the theorems.
-- - LockFree/HashMap.antt: pkg/ds/lockfree/hashmap.go, for one goroutine at a time: `put`,
--   `delete`, `get`, `clear`, `range`, `find_position` and `maybe_update_bucket` are its methods. In
--   LockFree/HashMap/: Lookup (contents and invariant), Put, Delete, Get, and Refinement (against the
--   map under a lock).
-- - Sync/Queue.antt: pkg/ds/sync/queue.go. Sync/HashMap.antt: pkg/ds/sync/hashmap.go.
--   Sync/PriorityQueue.antt: pkg/ds/sync/priority_queue.go.
-- - Protocol/Message.antt: pkg/protocol/message.go. Protocol/Codec.antt and Protocol/Fields.antt:
--   pkg/protocol/codec.go. Protocol/Handshake.antt: pkg/protocol/handshake.go.
--   Protocol/Control.antt, Protocol/Peers.antt and Protocol/Inv.antt: pkg/protocol/handlers.go.
--   The modules below each of them are named for what they prove.
-- - Mempool/Tx.antt: pkg/mempool/tx.go. Mempool/Pool.antt: pkg/mempool/mempool.go, with `add`,
--   `remove`, `remove_batch`, `remove_expired`, `get_pending`, `pop_highest`, `peek_highest` for its
--   methods; Mempool/Queries.antt: GetByAddress, GetNonce and GetStats. In Mempool/Pool/: Invariant
--   (what holds of every pool), Reached (the pools that the operations reach), and a file for what
--   each operation does.
-- - Peer.antt: pkg/peer/peer.go; Peer/Lifecycle.antt: its Close and its counts. Peer/Manager.antt:
--   pkg/peer/manager.go, for one call at a time; in Peer/Manager/: Invariant, Adding, Removing and
--   Reached.
-- - Transport.antt: pkg/transport/connection.go, whose `peer_connection` is what a peer calls.
--
-- - Node.antt: pkg/node/node.go, with `receive_handshake`, `start_peer`, `handle_ping` and
--   `node_remove_peer` for its methods. In Node/: Config (pkg/node/config.go), BytesReader (its reader
--   of bytes), Messages, Handshaking and Acknowledging (a handshake and its answer, sent and received),
--   Joining (startPeer and removePeer), Agreement (what was read when a handshake is accepted),
--   Connecting (`new_node`, `handle_inbound_connection` and `connect_to_peer`), Reading (the loop that
--   reads, the handlers, and what the node sends on its own), Answering (what a round of the loop does)
--   and Exchange (the peers that nodes tell each other of). They use the connection of Peer.antt, the messages of Protocol/ and `put_back` and
--   `send_to_all` of Broadcast.antt.
-- - Broadcast.antt: pkg/node/broadcast.go, with `mark_seen`, `cleanup`, `broadcast`, `gossip_broadcast`
--   and `relay_if_new` for its methods; in Broadcast/: Seen (the map and its count), Once (no message
--   twice), Targets, Sending, Reaching and Relaying (who is written to).
-- - Discovery.antt: pkg/discovery/discovery.go; Discovery/Backoff.antt: its ShouldRetry.
--   Discovery/Book.antt and Discovery/Seed.antt: pkg/discovery/seed.go, its loops over the map and its
--   methods; in Discovery/Book/: Gathering, Oldest and Trimming, the loops; in Discovery/Seed/:
--   Reading, Invariant, Reached and Cleanup. Discovery/Gossip.antt: pkg/discovery/gossip.go; in
--   Discovery/Gossip/: Selection and Quiet.
--
-- State and operations: a struct is a record, a method is a function from the record, a byte is a
-- number below 256, and a word keeps its wrap-around as a remainder. A nil pointer or interface is
-- `none`. The shared memory of the queue is the arrays of its nodes' fields, and a node is an
-- address; the garbage collector frees no node that is still held, so an address is not used again.
--
-- Parameters: CRC32 (hash/crc32), SHA-256 (crypto/sha256), FNV-1a (hash/fnv), xxhash, encoding/hex,
-- rand.Shuffle, the clock, net and strconv where an address is read or formatted, what Dial returns,
-- the order in which a loop goes through a Go map, and the reader and the writer of a connection, of
-- which `Accepts`, `Delivers`, `ReadsExactly` and `Flushes` say what io.Writer, io.ReadFull and
-- bufio.Writer document, and `ParsesIp` what net does.
--
-- Bounds: the loops of the decoders count down the number that the payload announces; the loops of
-- the queue are repeated steps, and a schedule may be of any length. A loop that pops from a heap
-- counts down the length of the heap, which each pop lowers by one; `up` and `down` of the heap count
-- down from above the index and the length, more rounds than a path through the heap has. The loop
-- that trims the book of addresses counts down its length, and each round removes an address.
--
-- Not modelled: the interleavings of the lock-free hash map, the lock-free priority queue, Range, Keys
-- and Values of the map under a lock, the ticker of the pool, calls of the peer manager at the same
-- time, GenerateID; of pkg/node the goroutines that its methods start, OnMessage, the listening server
-- and the timeouts; tickers, which call a method from time to time;
-- the sockets and the command, which are input and output around these; methods that only format text.
-- In the pool a transaction is a value: that Add writes the time of arrival into a transaction that
-- its caller shares is not modelled.
pub mod Prelude
pub mod Run
pub mod Bytes
pub mod Heap
pub mod GoMap
pub mod Protocol
pub mod LockFree
pub mod Sync
pub mod Mempool
pub mod Peer
pub mod Transport
pub mod Broadcast
pub mod Discovery
pub mod Node
