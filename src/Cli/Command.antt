-- ===== src/Cli/Command.antt =====
-- The commands of src/cli.rs, as `clap` hands them over.
use agent2agent.Config.Mode.{Mode}
use agent2agent.Config.Paths.{resolve, in_session, from_dir, Paths, base_dir, Environment}
use agent2agent.Base.{
  ℕ, Bool, true, false, Option, none, some, List, Text, nat_eq, text_eq, Result, ok,
}

pub data PeerAction : Type 0 where
  add : (name id : Text) → PeerAction
  list : (json : Bool) → PeerAction
  remove : (name : Text) → PeerAction
  default_ : (name : Text) → PeerAction

pub data Command : Type 0 where
  id : (json : Bool) → Command
  peer : PeerAction → Command
  send : (to : Option Text) → (confirm : Bool) → (message : List Text) → Command
  recv : (from : Option Text) → (wait : ℕ) → (json : Bool) → Command
  whoami : (name : Option Text) → Command
  invite : (name : Option Text) → (greeting : Text) → (ttl : ℕ) → Command
  join : (code : Text) → (name : Option Text) → (greeting : Text) → Command
  hello bye : (to : Option Text) → (message : List Text) → Command
  mode : (set : Option Mode) → Command
  sessions : (prune : Bool) → Command
  status : (json : Bool) → Command
  daemon : Command

pub record Cli : Type 0 where
  pub home : Option Text
  pub session : Option Text
  pub command : Command

-- Commands that need a live daemon.
unfoldable pub needs_daemon : Command → Bool
needs_daemon Command.daemon = false
needs_daemon (Command.id _) = false
needs_daemon (Command.peer _) = false
needs_daemon _ = true

-- Whether a command opens a conversation of its own: the `matches!` of `run`.
unfoldable pub is_opening : Command → Bool
is_opening (Command.invite _ _ _) = true
is_opening (Command.join _ _ _) = true
is_opening _ = false

-- The session to act on, by the directory and the session that are given.
unfoldable pub chosen_paths : Environment → Option Text → Option Text → Result (Option Paths)
chosen_paths env (some dir) session = elim session [
  | none ↦ ok (some (from_dir dir))
  | some given ↦ in_session dir (some given)
]
chosen_paths env none session = resolve env session

-- `Cli::paths`
unfoldable pub paths : Environment → Cli → Result (Option Paths)
paths env self = chosen_paths env self.home self.session

-- `Cli::base`
unfoldable pub base : Environment → Cli → Result Text
base env self = elim self.home [ some dir ↦ ok dir | none ↦ base_dir env ]
