-- ===== src/Lib.antt =====
-- Vole is a key-value server that speaks the Redis protocol. A connection's bytes become commands
-- (internal/resp), the server dispatches a command (internal/server/server.go), and the store
-- (internal/store) keeps the values of the keys under one lock. Around the store stand what the server keeps
-- of its own: clients, subscriptions, namespaces, the slow log.
--
-- The files and the code:
--   Prelude and below it: Boolean tests, lists, slices, integers, decimal text, maps, sort.Search.
--     A Go map is an association list in which a key stands once (Prelude/Map). A string is the list of
--     its bytes (Prelude/Text). strconv.ParseInt, AppendInt and sort.Search are written out as Go's
--     library does them (Prelude/Decimal, Prelude/Search), as is crc32.ChecksumIEEE (Prelude/Crc).
--   Ranges: normalizeRange of internal/store/store.go.
--   Deque: internal/store/deque.go, the circular buffer of a list. Deque/Valid has its invariant; Push,
--     Pop, Insert (with Gap for the shifts), Access and Room (growth) follow the methods.
--   SortedSet: internal/store/sortedset.go. Scores are an instance argument with the laws of a total
--     order: the float64 values other than NaN, 0 and -0 as one.
--   TimeSeries: internal/store/timeseries.go. Sorted has Add and Range, Buckets and Overflow Downsample.
--   Keys: touchKeyLocked, KeyVersions and KeysModifiedSince of internal/store/store.go; Watch is about
--     what WATCH and EXEC ask of them.
--   Queue: internal/store/queue.go. Flow is about one queue, Kept about the store's queues, Order about
--     the message that is delivered, Retries and Reach about the states that calls lead to, Wakes about
--     the waiters.
--   RateLimit: RateLimit, RateLimitPeek and RateLimitReset of internal/store/store.go.
--   Keyspace: the record Store and the tests of a key that every command makes. Below it, operations:
--     Strings and Edits (Set to GetDel), Expiry (deadlines, the sampling of expired keys), Moves (Del,
--     Rename, Copy, FlushDB), Listing (Type, Keys, Scan), Hashes, Sets, Bits, SortedSets, Lists, Blocking (the
--     waiters of BPop); all of internal/store/store.go. Below it, proofs: Spec has what the commands on strings promise, a map
--     of texts with deadlines, and Refines, Plain, Leaves, Commands, Writes, Deadlines and Trace show
--     that the store keeps it; Bytes, Pages, Listed, Gone, Renames, Hidden, Fields, Members and Toggles are about
--     ranges, Scan, deletion, renaming, delays, hashes, sets and bits; Waiters, Pushes, Removals and Places
--     are about lists, Scores about sorted sets.
--   Glob: MatchGlob and matchBracket of internal/store/store.go. Brackets has what a bracket means, Meaning
--     what a pattern means.
--   Namespace: internal/server/namespace.go.
--   Clients: internal/server/clients.go.
--   PubSub: internal/server/pubsub.go, which calls Glob.
--   SlowLog: internal/server/slowlog.go.
--   Session: the commands of a connection in handleConn of internal/server/server.go, with execTransaction and
--     isWriteCommand: the gate of AUTH, transactions, and the checks in front of a command. What it uses of the rest
--     of the server is the record Services, whose field execute is exec. Turns puts what other connections
--     do between the commands of one; Transactions and Watched are about EXEC, Gate about AUTH.
--   Cluster: internal/server/cluster.go, and ensureOwns of internal/server/server.go; Changes has rebalanceSlots and
--     what calls it. Slots is about
--     assignSlots and Owner, Rebalance about rebalanceSlots, Marks and Reach about the clusters that calls lead to, Tags
--     about Slot.
--   Aof: the lines of internal/server/aof.go. Pairs and Escape are about escape and unescapeLine, Fields about the
--     fields of a line and its checksum, Lines about what is read back of the file.
--   Resp: internal/resp/resp.go. Lines, Commands and Replies are about what is read back from what is
--     written, Fuel about the end of ReadValue.
--
-- State and time: a struct is a record, and a method a function from the record to the record and the
-- results, in the words of the source. The record Waiting has the store, the waiters of lists, each with
-- the number of its channel, and what was sent on the channels. The record Store of Keyspace has the values, the deadlines and
-- the tags; the methods on queues, rate limiters and versions work on the parts that they use (Queues,
-- Limiters, Keys). A reading of the clock is an argument; where a method reads it twice, there are two. An
-- unsigned counter of 64 bits is taken modulo 2 ^ 64; a panic is a value (none, or panic of the readers).
-- A method that holds the lock is one step; Dequeue and Publish, which release it, are two. A connection's
-- commands are steps too, between which others may do anything; EXEC takes the lock of the store for its test and
-- again for each command, and what others do before each command is an argument.
--
-- Fuel: search takes the length of the slice, MatchGlob the length of the pattern, ReadValue more than
-- the bytes that are there, and Downsample the number of buckets; each is shown to be enough, and for
-- Downsample also where none is.
--
-- Not modelled: the other types of values and commands of internal/store/store.go, JSON documents,
-- HyperLogLog, geo, the cases of exec and of ReplayAOF, snapshots, replication, scripting, cron, schemas, HTTP and the
-- command-line tools: they remain to be done, but for those that are input and output throughout. The network
-- calls of the cluster are arguments. Floating-point arithmetic is a parameter. A bulk string is read as bytes, and
-- strings.Fields and ToUpper are taken on ASCII. That memory runs out is modelled only as the panic of make on
-- a size above a limit, which is an argument.
pub mod Prelude
pub mod Aof
pub mod Cluster
pub mod Ranges
pub mod Deque
pub mod SortedSet
pub mod TimeSeries
pub mod Keys
pub mod Queue
pub mod RateLimit
pub mod Clients
pub mod PubSub
pub mod Glob
pub mod Namespace
pub mod SlowLog
pub mod Keyspace
pub mod Resp
pub mod Session
