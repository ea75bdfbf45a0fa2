-- ===== src/Lib.antt =====
-- A model of claude-ipc, by which sessions on one machine send each other messages: the broker with
-- its storage, its roster and its project mailboxes, the framing of its socket, the host that feeds
-- a Codex thread, the rendering of mail for a session, and the editor and view model of the dashboard.
--
-- The parts, and where they are modelled:
--   * Base (and its children): texts as lists of UTF-16 units, association lists in insertion order
--     for the JavaScript maps, lists over the native numbers, a stable sort by a key.
--   * Models: the records and enumerations of src/models.ts. `null` and an absent field are `none`.
--   * ProjectAddress: src/projectAddress.ts, addresses `proj:<directory>`.
--   * Protocol: `encodeFrame` and `FrameDecoder` of src/protocol.ts; `stringify` and `parse`, the
--     JSON text of a value as bytes and back, are parameters.
--   * Aliases: `sanitizeAlias`, `slug` and `deriveAlias` of src/aliasStore.ts.
--   * Storage: `MemoryBackend` of src/storage/memoryBackend.ts. `Storage.State.Backend` has a field
--     for each of the class's, and each method is a function from a state to a state, with its
--     result beside it where it has one. `Storage.Machine.Write` lists the methods that change a
--     field, `apply` performs one and `run` a history of them.
--   * Registry: `Registry` of src/broker/registry.ts, over the state `Broker` that holds the storage
--     and the roster; `Registry.Machine` lists its writes in the same way.
--   * Router: src/broker/router.ts, its shared checks (Router.Guards), `send` (Router.Send), `reply`
--     and `replyToInform` (Router.Replies), `snooze`, `accept`, `decline` and `cancel`
--     (Router.Consent), `check`, `deliver`, `lease`, `ackDelivery` and `count` (Router.Inbox),
--     `status`, `history` and `awaitReply` (Router.Log), `orphans` and `asks` (Router.Listings),
--     `digest` (Router.Digest), and the others that change state (Router.Sessions). `Router.Machine.Request` lists the requests that can change the storage,
--     `handle` serves one and `serve` a list of them; the other files of Router hold proofs.
--   * Sweeper: `tickSweeper` and `sweepReplyDeadlines` of src/broker/sweeper.ts, which the broker
--     runs on a timer over the same storage.
--   * Client: `degraded` of src/client.ts, what a client does with the database itself while the broker
--     is down. It opens the SQLite backend; here it works on the state of Storage, which keeps the
--     same contract (src/storage/base.ts). The hash of an operation id and the test for a token file
--     are parameters.
--   * Hooks: the rendering of mail for a session's context in src/hooks/shared.ts.
--   * Textarea: src/tui/widgets/textarea-ops.ts.
--   * Dashboard: src/tui/model.ts, what makes text safe to show, picks the messages of a session
--     and draws the traffic, where each bar stands for a whole number of seconds.
--   * Codex: `CodexIpcHost` of src/codex/host.ts. Each method is an action on a state that holds the
--     host's fields, the other side, and a list of what the host did; the broker and the App Server
--     are a parameter, `World`, whose every call may change the other side and may fail. The thread
--     changes between two pumps only, as the loop of src/codex/main.ts awaits each one.
--   * Examples: small states on which the theorems are applied.
-- The router checks who may act, then reads and writes the roster and the storage; the registry
-- stores a snapshot of the roster in the storage after each change.
--
-- Times are whole seconds, and the clock is read once for each operation (`Env.now`). The id source,
-- `crypto.randomUUID`, the terminal of a process and the settings of src/config.ts are fields of
-- `Env`. Numbers are unbounded, but for the 32 bits of a frame's length. Most loops of the code run
-- over a list. The printing of a number in decimal (Sweeper) takes fuel, one more than the number,
-- which is at least its count of digits; so does the loop of `push` (Protocol), one more than the
-- bytes in the buffer, of which each round takes four at least. The two loops of the Codex host end
-- by what the other side answers: they run on any fuel, and a run that needs more ends as `hung`,
-- after which the host does nothing more.
--
-- Not modelled: src/storage/sqliteBackend.ts, whose work is done by SQL statements; sockets,
-- files, timers and printing (src/broker/server.ts, src/cli.ts, src/mcpServer.ts, the rest of src/hooks, the
-- rest of src/client.ts, src/tui and src/codex); the sentences that go with error codes; the
-- fields of a listing that never vary, and the printing of its dates.
pub mod Base
pub mod Models
pub mod ProjectAddress
pub mod Protocol
pub mod Aliases
pub mod Storage
pub mod Broker
pub mod Registry
pub mod Router
pub mod Sweeper
pub mod Client
pub mod Hooks
pub mod Dashboard
pub mod Textarea
pub mod Codex
pub mod Examples
