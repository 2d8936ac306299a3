-- ===== src/Lib.antt =====
-- agent2agent: two coding agents on different machines exchange messages over iroh, each through a
-- daemon of its own, and the command line talks to the daemon over a unix socket.
--
-- The parts, and the files that model them:
--   src/util.rs      Util.antt: hexadecimal text, ids, the clock, `describe`.
--   src/config.rs    Config.antt: `validate_name`, `validate_session_id`, `Mode`, and in
--                    Config/Peers.antt `Peer` and `Peers` with their operations. The list is a
--                    record, its map sorted by the name. Config/Paths.antt, Config/Identity.antt and
--                    Config/Key.antt have the state directory, the names and the key file, and
--                    Config/Store.antt what reads, writes and deletes the files.
--   src/pairing.rs   Pairing.antt: `InviteCode` (Pairing/Code.antt), `tokens_match`, `is_newer`,
--                    `distinct_from`, and the messages of a pairing (Pairing/Join.antt).
--   src/wire.rs      Wire.antt: the messages, `write_frame` and `read_frame` (Wire/Frame.antt), and
--                    `write_json` and `read_json` (Wire/Json.antt).
--   src/inbox.rs     Inbox.antt: the bounded queue, and in Inbox/Wait.antt `pop_wait`.
--   src/render.rs    Render.antt: what the operator is shown.
--   src/ipc.rs       Ipc.antt: requests and responses, and in Ipc/Exchange.antt one exchange.
--   src/daemon.rs    Daemon.antt: the state, as a record. Daemon/Send.antt has `handle_incoming`,
--                    `handle_stream` and `send_kind`, Daemon/Deliver.antt `deliver`,
--                    Daemon/Invite.antt the inviter's side of a pairing, Daemon/Join.antt the
--                    joiner's, Daemon/Handle.antt `handle` and `serve_one`, Daemon/Socket.antt
--                    `bind_ipc`, and Daemon/Process.antt `run`.
--                    Daemon/Served.antt joins `serve_one` to `exchange` of src/ipc.rs.
--   src/cli.rs       Cli.antt: what is made of a reply to `deliver`, `ask_terminal`,
--                    `collect_message`. Cli/Command.antt has the commands, Cli/Session.antt
--                    `ensure_daemon` and `end_session`, Cli/Dispatch.antt and Cli/Machine.antt one
--                    function for each command, and Cli/Run.antt `dispatch` and `run`, with the exit
--                    code of src/main.rs. Their theorems stand in the files beside these.
-- System.antt is the boundary to the operating system, for src/cli.rs, the files of src/config.rs and
-- `run` of src/daemon.rs.
-- Examples.antt has a concrete input for each theorem.
-- Base.antt and its children are shared: texts as lists of code points, maps, results, arithmetic.
--
-- Correspondence. A function of the source is a function of the same name, a method of a struct
-- takes it as an argument and returns the new one. `anyhow::Result` is `Result`, with a constructor
-- of `Error` for each message of the source; where the source sends the text of an error, the model
-- hands on the error. What the network, the clock, the random source and the disk do is an argument:
-- an `Attempt` for one delivery, a `Pairing` for the call of an inviter, a schedule of `Turn`s for a
-- wait, the outcome of saving a file. The crates iroh (`Iroh`), data_encoding (`Base64`) and
-- serde_json (`Codec`) are parameters; what is assumed of them is named `IsLawful` or is a
-- hypothesis of the theorem. A handler of the daemon is one step: what other tasks do between two of
-- its locks is modelled for `pop_wait`, and for two callers that redeem at the same time. A command
-- of src/cli.rs is an action on the trace of the calls that were made of the system: requests to a
-- daemon, files, programs, sleeps, and what is printed. A `System` says what each call is answered
-- with, by all the calls before it, so that a theorem over all systems holds whatever other programs
-- do meanwhile. `deliver` is there twice: over a list of exchanges in Cli.antt, and as an action in
-- Cli/Dispatch.antt.
--
-- Fuel. The loop of `add_paired` has one round for each peer on the list and one more: every round
-- but the last meets a name that is taken, and no name twice. `distinct_from` has the 98 suffixes of
-- the source, of which the first differs already. The header of a frame has four rounds, each of
-- which reads a byte at least. The schedules of `pop_wait` and the tries of `perform_join` may end
-- too early, which is a result of its own (`none`, `stalled`); one that reaches the deadline does
-- not. `ensure_daemon` has 151 rounds, of which each but the last sleeps for 200 of the 30,000
-- milliseconds; `end_session` has the 20 of the source. `deliver` as an action is asked for approval
-- as often as its rounds allow, and the error `rounds_over` is none of the source.
--
-- Not modelled: the parsing of the arguments, which is the crate clap, and the help texts; the tasks
-- that a daemon starts for its connections (`serve_ipc` and `spawn_accept_loop` of src/daemon.rs),
-- of which each is one handler. In the trace of `run` all serving is one call, so that what the
-- handlers write, which is peers.toml after a pairing, does not stand in it. Neither are
-- `render_json`, a call of serde_json; logging; and the wait for reachability, which changes no
-- state. A moment is a number without a bound: that adding a long time to an `Instant` panics
-- (`create_invite`) is not in the model. Nor is the overflow of the counter of `add_paired`, an i32,
-- which would take that many peers. `join_path` joins a part that is not absolute, which is every
-- part that src/config.rs joins; what a path leads to through links or `..` is the system's. An
-- error that is printed is left out of what `bye` prints.
pub mod Base
pub mod Util
pub mod Config
pub mod Pairing
pub mod Wire
pub mod Inbox
pub mod Ipc
pub mod System
pub mod Daemon
pub mod Render
pub mod Cli
pub mod Examples
