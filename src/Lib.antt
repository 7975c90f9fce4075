-- ===== src/Lib.antt =====
-- EdgeGrid: a node of a peer-to-peer grid that moves files and runs tasks for the peers it trusts.
--
-- The development follows the program's packages. Paths are from the repository's root.
--
--   Prelude   lists, numbers, byte strings, Go's fixed-width integers, and the `ruleset` of the tests
--   Proc      Go code that changes a state and returns (value, error): `Proc S E A`
--   Net       a connection: io.ReadFull, Write and encoding/binary
--   Disk      a file: io.ReadFull, Truncate and WriteAt
--   Json      encoding/json as a pair of functions
--   Blob      internal/blob: manifest.go (Validate, Build, SafeName), wire.go, verdict.go and the frames of
--             chunk.go (Wire), Send and Receive of chunk.go (Send, Receive)
--   Task      internal/task: task.go and task_process.go (Offer), result.go (Outcome)
--   Discovery internal/discovery: hello.go (Hello), membership.go (Members)
--   Db        internal/db: tasks.go (Tasks), transfers.go and query.go
--             (Transfers, Transfers/Totals), migrate.go (Migrate), each SQL statement as what it does
--             to the rows
--   Executor  internal/executor: the registry of executor.go, and the capped output of bare.go
--   Node      internal/node: aclstore.go (Acl), checkAccept, checkTaskAccept and checkSpace (Accept),
--             formatBytes (Sizes), config.go (Config), reserveInboxFile (Inbox), transfers.go
--             (Transfers), receiveBlob of blob_receive.go (Inbound), blob_send.go (Outbound), peer.go with Server.handle of
--             internal/discovery/listener.go (Peers),
--             task_slot.go, task_receive.go and task_result.go (Tasks), task_dispatch.go and
--             task_await.go (Dispatch)
--   Tui       internal/tui: dashboard/peers.go with its state (Tab), the paths that are typed (Paths), the
--             keys of the list (Browsing) and Update (Peers); cmdbar/cmdbar.go (Cmdbar);
--             dashboard/tokens.go (Tokens); the keys (Press); dashboard/history.go
--             (History); dashboard/dashboard.go with refreshLocal of overview.go (Dashboard); app/app.go with Update of logsview/logsview.go
--             (App); and app/welcome.go: its settings form (Fields, Settings)
--             and the choice of a profile (Landing, Welcome), with ResolveDataDir of
--             internal/node/config.go
--   Examples  runs at concrete inputs
--
-- A Go string or []byte is a list of numbers, its bytes; an int or int64 is an integer, and sums of
-- them wrap around at 64 bits (Prelude/Int). An error is a constructor with the values that its text
-- prints; the text itself is written out where the code sends it to a peer. The environment is data:
-- a connection holds what will arrive and how its writes turn out, a disk holds the outcome of each
-- call. BuildManifest's loop runs on fuel, one more than the bytes of the file, and
-- the polling of awaitResult on fuel, one more than the milliseconds until its context ends; both are
-- shown to be enough. The loop of formatBytes has six rounds, which is enough for 64
-- bits. The loop of the migrations has the rounds that are left as its fuel.
--
-- A node that offers a task calls Task.Offer, and the executing node answers with Node.Tasks, which runs
-- Task.Offer.process_task with a policy over the slot (one task at a time) and the table of Db.Tasks.
-- A node that sends a file calls Node.Outbound.send_blob, and the listener of the other node runs
-- Node.Peers.handle on the connection: it greets and calls handle_peer, which runs Node.Inbound.receive_blob,
-- receive_task or receive_result by the intent. Both ends keep the transfer in Node.Transfers and in the rows of
-- Db.Transfers. Transfers run at once: Node.Transfers.Steps has a step for every store to the list, in any
-- order. The Peers tab is a state machine over the messages of its event loop, and Tui.Peers.Session adds the
-- commands that run outside it. Tui.App.update hands a message to the logs, to the command line or to
-- Tui.Dashboard.update, which hands it to a tab; Tui.App.Timers.Polls keeps, beside the application, the timers
-- whose message is still to come.
--
-- Whether a statement of the database, a call on a file or a deadline goes through is an argument of the
-- operation, so that a theorem about all arguments is about all failures.
--
-- crypto/sha256, encoding/json and github.com/google/uuid are parameters. So is, in the
-- terminal interface, the text field of bubbles: what a key makes of its value.
--
-- Not modelled: what the terminal interface draws, and the screen of the boot; the operating system's calls and
-- the network below a connection, but for how each call turns out; the accepting loop of the listener; the
-- log, with its clocks and rates; the counters of the machine's load, whose values are data; the quotient of
-- the two numbers that make a throughput; the start of a process; the subcommands
-- of main.go, which only print, and wire what is modelled here together; the client of the Tailscale API, whose
-- answers are data.
pub mod Prelude
pub mod Proc
pub mod Net
pub mod Disk
pub mod Json
pub mod Blob
pub mod Task
pub mod Discovery
pub mod Db
pub mod Executor
pub mod Node
pub mod Tui
mod Examples
