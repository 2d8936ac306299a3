-- ===== src/Cli/Reach.antt =====
-- What a command of src/cli.rs may do to the machine: the sockets, the files and the programs that
-- each of its calls reaches.
pub mod Starts
pub mod Steps
pub mod Files
pub mod Whole
use agent2agent.Base.{
  ℕ, zero, suc, ◌+◌, ◌-◌, ◌*◌, ◌/◌, ◌%◌, ◌^◌, ◌≤◌, ◌<◌, ◌≡◌, refl, sym, ap, ◌∙◌, ◌≢◌, ◌↔◌, ◌⊎◌, inl,
  inr, Bool, true, false, not, ◌&&◌, ◌||◌, Option, none, some, List, [], ◌∷◌, ◌++◌, map, append-nil,
  append_assoc, arith, ltb, leb, if◌then◌else◌, Text, text, ◌==◌, nat_eq, text_eq, Bool-cases,
  Option-cases, ==_iff, length, get_elem?, take, drop, all, All, All-append, All-map, all→All,
  All→all, length-append, length-map, take-inside, drop-inside, take-beyond, drop-beyond, take_all,
  take-append-drop, length-take-le, append-cancel_left, take-append, drop-append, Result, ok, err,
  ◌>>=◌, ◌>>◌, bail_if, context, ok_or, is_ok, or_zero, within, Context, Error, >>=-eq-ok,
  ok_or-eq-ok, context-eq-ok, bail_if-eq-ok, Result-cases, creating, reading, parsing, writing,
  setting_mode, removing, serializing_state, locating_executable, reading_current_dir,
  reading_stdin, starting_daemon, rounds_over, panics, no_session, no_name_set, empty_message,
  unexpected_reply, daemon_did_not_start, io_failed, bad_toml, bad_json, unknown_peer,
}
use agent2agent.Cli.Command.{Command, needs_daemon}
use agent2agent.Cli.Session.{daemon_args}
use agent2agent.Config.Paths.{Paths, identity, peers, secret_key, socket}
use agent2agent.Config.Store.{parent, owner_dir, owner_file}
use agent2agent.System.{
  Call, requests, checks, spawns, sleeps, serves, reads, lists, creates, writes, restricts, removes,
  binds, draws, reads_stdin, asks, prints, eprints,
}

-- The commands that end a conversation, that name the agent, that change the peer list, that need
-- the key, and that are the daemon.
abbrev pub EndsSession : Command → Type 0
EndsSession (Command.bye _ _) = Unit {0}
EndsSession _ = ⊥

abbrev pub NamesAgent : Command → Type 0
NamesAgent (Command.invite _ _ _) = Unit {0}
NamesAgent (Command.join _ _ _) = Unit {0}
NamesAgent _ = ⊥

abbrev pub EditsPeers : Command → Type 0
EditsPeers (Command.peer _) = Unit {0}
EditsPeers _ = ⊥

abbrev pub MakesKey : Command → Type 0
MakesKey (Command.id _) = Unit {0}
MakesKey Command.daemon = Unit {0}
MakesKey _ = ⊥

abbrev pub IsDaemon : Command → Type 0
IsDaemon Command.daemon = Unit {0}
IsDaemon _ = ⊥

abbrev pub ReadsStdin : Command → Type 0
ReadsStdin (Command.send _ _ []) = Unit {0}
ReadsStdin _ = ⊥

-- The file is the one that the command is about.
abbrev pub IsOwnFile : Paths → Command → Text → Type 0
IsOwnFile self command path =
    ((path ≡ identity self) × NamesAgent command)
    ⊎ ((path ≡ peers self) × EditsPeers command)
    ⊎ ((path ≡ secret_key self) × MakesKey command)

abbrev pub IsOwnDir : Paths → Command → Text → Type 0
IsOwnDir self command path =
    ((path ≡ parent (identity self)) × NamesAgent command)
    ⊎ ((path ≡ parent (peers self)) × EditsPeers command)
    ⊎ ((path ≡ self.dir) × MakesKey command)

abbrev pub Reaches : Paths → Command → Call → Type 0
Reaches self command (requests path req timeout) = path ≡ socket self
Reaches self command (checks path) =
    (path ≡ socket self) ⊎ (path ≡ self.dir) ⊎ (path ≡ secret_key self)
Reaches self command (spawns program args) =
    (args ≡ daemon_args self) × (needs_daemon command ≡ true)
Reaches self command (serves dir) = (dir ≡ self.dir) × IsDaemon command
Reaches self command (reads path) =
    IsOwnFile self command path ⊎ ((path ≡ peers self) × IsDaemon command)
Reaches self command (writes path contents) = IsOwnFile self command path
Reaches self command (creates path) = IsOwnDir self command path
Reaches self command (restricts path mode) =
    (IsOwnFile self command path × (mode ≡ owner_file))
    ⊎ (IsOwnDir self command path × (mode ≡ owner_dir))
    ⊎ ((path ≡ socket self) × (mode ≡ owner_file) × IsDaemon command)
Reaches self command (removes path) =
    ((path ≡ self.dir) × (self.session ≢ none) × EndsSession command)
    ⊎ ((path ≡ socket self) × IsDaemon command)
Reaches self command (binds path) = (path ≡ socket self) × IsDaemon command
Reaches self command (lists path) = ⊥
Reaches self command (draws bytes) = MakesKey command
Reaches self command reads_stdin = ReadsStdin command
Reaches self command (sleeps ms) = Unit {0}
Reaches self command (asks preview) = Unit {0}
Reaches self command (prints shown) = Unit {0}
Reaches self command (eprints shown) = Unit {0}
