-- ===== src/Lib.antt =====
-- Battle Tanks: a peer-to-peer game with a thin server for peer discovery, clock synchronisation
-- and a replicated store of statistics. The parts, and the files that model them:
--
-- - Base and its children: shared names, tests, lists, maps (Go's `map` as an association list),
--   signed integers with Go's wrap-around and division, bytes and decimal numbers.
-- - Crdt (crdtlib/crdtlib.go) and Clock (clocklib/clocklib.go, and the times of Go's `time`).
-- - Client/Disk (`WriteKVPair` of client/clocks.go, `KVStoreSetup` of client/crdt.go) and
--   Client/Store (`KVClientGet` and `KVClientPut` of client/clocks.go).
-- - Geometry, Update and Client/Record: the floating-point numbers and vectors that the game is
--   given, the updates of clientlib/update.go, and `RecordWorker` of client/state.go.
-- - Client/Peers: the workers and handlers of client/peers.go, and `Heartbeat` and `Recover` of
--   client/clocks.go. Client/Peers/Sections has the second critical sections of `Register` and
--   `HeartbeatWorker`, between which other steps can come. What the network does with a message
--   is left open; Client/Peers/Flood has a step relation for it. Client/Peers/Beats has the calls
--   between peers of clientlib/clock.go.
-- - Client/Wire: the messages between clients (clientlib/rpc.go) with the stubs and the listener
--   of clientlib/clientlib.go, over any encoding; Client/Peers/Listener joins it to the handlers
--   of peers, and Client/Peers/Worker lets `ListenerWorker` read packet after packet.
-- - Client/Game: the players and bullets that a client shows: `doAcceptUpdates`,
--   `doUpdateBullets`, `doLocalInput` and `FireBullet` of client/client.go, its goroutines that
--   count kills and deaths (Client/Game/Counts, over any store and over the server), and a round
--   of client/bot.go; Client/Game/Run joins them to the frames of `run`. The array under the slice
--   of bullets is modelled, since a loop removes from the slice that it ranges over.
-- - Server/State and Server/Monad: the variables of server/server.go, its locks, and what a
--   handler can do: end, take the process down, wait for a lock, call a client.
-- - Server/Registry: `Register`, `Connect`, `Disconnect`, `GetNodes`, `NotifyFailure`,
--   `monitorConnections` and `awaitClientConnections`; Server/Registry/History and Runs let all
--   requests of the server run in any order, one after another; Diagram has the status of a
--   client as a state machine, Stranded is about clients that are lost before their first clock
--   synchronisation, and Zero about the client with the id 0.
-- - Server/Kv: `KVGet` and `KVPut`, with the stubs of clientlib/clock.go by which the server
--   calls its clients. Server/Kv/Failures and Stale join them to `NotifyFailure` and `Connect`.
--   Server/Kv/ReadBack: `KVGet` of client/crdt.go with its stub in serverlib/serverlib.go.
--   Server/Sync: `syncClocks`.
-- - Server/Stubs: the stubs of serverlib/serverlib.go. Session: how `main` of client/client.go
--   enters and leaves the game, over those stubs and the server's handlers.
-- - Trace (dtrace_parsers/parser.go): the checker of recorded traces, over the lines of their
--   files.
-- - Tests: runs on small inputs.
--
-- A handler is a function from the server's state to an outcome. Locks are part of the state: a
-- lock that is held blocks, and an unlock of a free one ends the process, as Go does. `log.Fatal`
-- and a nil pointer end it too. A `range` over a map takes the order of its visits as an
-- argument, and so does `rand.Perm`; what becomes of a remote call is an argument as well. Client
-- ids and keys are natural numbers: the code compares them, and where it prints or sends one, a
-- bound of 2 ^ 64 or 2 ^ 63 is written out; times are integers, durations wrap around.
--
-- The pointers in the table of connections are not shared: each is written back under its key
-- while the lock is held, so a connection is a value. The drawing library, the windows, the
-- sockets, the logs of GoVector and Dinv and the command line are not modelled. Every loop is a
-- recursion on a list or on the number of its rounds, and the only fuel is that of the decimal
-- printer, which is the number itself: each round divides it by ten.
pub mod Base
pub mod Crdt
pub mod Clock
pub mod Geometry
pub mod Update
pub mod Client
pub mod Server
pub mod Session
pub mod Trace
pub mod Tests
