-- ===== src/Lib.antt =====
-- go_oam: the parts of the repository that collect, keep and filter data, and what makes them right.
--
-- The repository is a Go library for operation and maintenance of network elements. Its package
-- push sends records to a server and keeps what was sent (push/history) and counters (push/metrics);
-- pkg holds helpers (telnet, sockets, files, encryption); ws holds a WebSocket server and client.
--
-- Base holds what the parts share: Boolean tests, lists indexed by native numbers, Go's slices and
-- `copy` (Base/Slices, whose `none` is a run-time panic), signed integers, strings as lists of bytes
-- (Base/Keys), maps as association lists (Base/Maps) and the FNV-1a hash (Base/Hash).
--
-- Push/RingBuffer models push/history/ringbuffer.go: `NewRingBuffer`, `Push`, `GetAll`, `GetLast`,
-- `Resize`, `Clear` are `new_ring_buffer`, `push`, `get_all`, `get_last`, `resize`, `clear`. Its
-- children hold the invariant, the contents as a list, the refinement and the resize.
-- Push/History models push/history/history.go: one buffer for each key, made on first use; a pointer
-- to a buffer is modelled by writing the buffer back under its key. Push/ShardedHistory models
-- push/history/sharded.go: sixteen buffers, chosen by the hash of the key.
-- Push/Metrics/Methods models push/metrics/metrics.go, and Push/ShardedMetrics push/metrics/sharded.go.
-- Push/Metric holds one metric and the operations of float64 with the laws that are used: these
-- hold in IEEE 754 arithmetic for every value. Push/Metrics/Effects describes a call by what it does
-- to the metric of each name.
--
-- Push/Client models the retries of push/client/client.go: `doPushWithRetry`, `calculateBackoff` and
-- `isRetryable`. The jitter, the end of the context and the result of each request are arguments; the
-- number of rounds that are left is what the loop recurses on.
--
-- Push/Pool models the queue and the workers of push/client/client.go: the options, `New`,
-- `AsyncPushTimeout`, `worker`, `SetWorkers`, `Close` and `Stats`. A round of a worker is one step. A
-- list of rounds stands for what the workers do, in the order in which they receive.
--
-- Telnet/Iac models the filter `iacProcessor` of pkg/telnet/client.go, with `feed`, `stash` and
-- `findSubnegEnd`, and the message of `nawsMessage`; its loop takes the number of bytes as fuel, and
-- every round takes one at least. Telnet/Iac/Machine is the machine that reads one byte at a time, to
-- which the filter is held. Telnet/Client models the life cycle, `Read` and `Exec` of `Client`: the
-- results of the network are arguments, and the read loop is a sequence of rounds that a history of
-- events (Telnet/Client/Life) may put between any two calls.
-- Telnet/Client/Auth models `Auth`, `Write` and `WindowChange`.
--
-- Push/Timer models push/timer/timer.go, and Crypto models pkg/crypto/aes.go, with the block cipher,
-- its modes and the random source as arguments and their documented laws as hypotheses.
--
-- Ws/Topics models `topicManager` of ws/server/server.go, and Ws/Hub the server with its connections:
-- `ServeHTTP` is `admit` and `join`, since other requests may come between its test of the limit and
-- `init`; `Subscribe`, `Unsubscribe`, `Close` and `SendResp` of ws/server/conn.go are `subscribe_conn`,
-- `unsubscribe_conn`, `close_conn` and `send_resp`. Ws/Hub/Links has the relation `Reach` of the
-- servers that a history of such events reaches. Ws/Messages models a round of `readLoop`, `Handle`
-- with `Use`, and the count of `healthLoop`; codecs are parameters.
--
-- Telnet/Server models pkg/telnet/server.go: the goroutine of `Listen` has a place (`Phase`), the one
-- `Close` that takes effect another (`Closer`), and each `handleConn` is an entry of `handlers`. Its
-- steps (Telnet/Server/Calls) come in any order, so that every interleaving of these steps is a list of events.
-- Push/Facade models push/push.go on top of Push/Pool, where Push/Pool/Batch has `BatchPush` and
-- `HealthCheck`.
--
-- Ws/Client models ws/client/client.go: `loops` are the read loops that run, each with whether its
-- connection is still open, and `reconnect` has the results of its dials as an argument. A call of
-- `Connect`, from its dial to the store of the connection, is one step: calls that overlap, which the
-- code does not exclude, are not modelled.
--
-- File models pkg/file/upload.go: File/Upload has the limits, `ChunkSave` and `mergeFiles` over a disk
-- (`Disk`) whose faults are an argument, File/Atomic `writeFileAtomic` of
-- pkg/file/internal.go, File/Digits the names of chunks, and File/Range `ReadStream`.
--
-- Parse models `SafeContent`, `ConvertIPMask` and `IsText` of pkg/parse/parse.go.
--
-- Socket models pkg/socket. Socket/TcpClient is `ClientTCP`, Socket/UdpClient `ClientUDP` on the same
-- fields, Socket/TcpServer `ServerTCP` and Socket/UdpServer `ServerUDP`. A method that another goroutine
-- can come into is several steps: the read loop of a client is `deliver`, `read_fails` and
-- `loop_panics`; the `shutdown` of a client is `shutdown` and the rounds of `shutdown_goes_on`; `Listen` of
-- a server is `listen`, `listen_enters`, `bind`, the rounds of its loop, `leave` and `finish`;
-- `Close` is `close` and its calls in `close_goes_on`. The theorems are over any order of these steps.
--
-- File/Names models how upload.go makes the name of a stored file, with the random part of
-- pkg/generate/generate.go, and File/Save its `Save`, `ChunkList` and `ChunkMerge`. File/Text models
-- pkg/file/txt.go, File/Copy pkg/file/copy.go with the locks of pkg/file/internal.go. Fetch/Async models
-- pkg/fetch/async.go, and Fetch/Request the clients of pkg/fetch/fetch.go.
--
-- A method that holds a lock is one step of the model, and so is a loop over a map; nothing is said of
-- calls that run between two entries of such a loop. A run-time panic is the outer `none` of a
-- result. The receiver of a method is not nil. Recursion is on a list or on the rounds that are left.
-- Fuel is used twice: the telnet filter is held to a machine that needs none, and the digits of a
-- number, 20, are as many as 64 bits can need. An outcome of the network, of the disk or of a random
-- source is an argument of the step that meets it.
--
-- Not modelled: archives, data files, SSH, command and state
-- helpers, which read and write outside the program, and the examples. Of the encryption the wrappers
-- that encode in Base64 are left out.
pub mod Base
pub mod Push
pub mod Telnet
pub mod Crypto
pub mod Ws
pub mod File
pub mod Parse
pub mod Socket
pub mod Fetch
