-- ===== src/System.antt =====
-- What src/cli.rs, src/config.rs and `run` of src/daemon.rs ask of the operating system and of a
-- running daemon, as a trace of calls. What the system answers is a parameter: it may depend on every call that was made before.
pub mod Bind
pub mod Makes
use agent2agent.Inbox.{Message}
use agent2agent.Config.Peers.{Peers}
use agent2agent.Config.Identity.{Identity}
use agent2agent.Ipc.Exchange
use agent2agent.Ipc.Exchange.{is_answer, Json, Wire}
use agent2agent.Config.Paths.{Environment}
use agent2agent.Ipc.{StatusInfo, Request, Response}
use agent2agent.Base.{
  ℕ, zero, suc, ◌+◌, ◌-◌, ◌*◌, ◌/◌, ◌%◌, ◌^◌, ◌≤◌, ◌<◌, ◌≡◌, refl, sym, ap, ◌∙◌, ◌≢◌, ◌↔◌, ◌⊎◌, inl,
  inr, Bool, true, false, not, ◌&&◌, ◌||◌, Option, none, some, List, [], ◌∷◌, ◌++◌, map, append-nil,
  append_assoc, arith, ltb, leb, if◌then◌else◌, Text, text, ◌==◌, nat_eq, text_eq, Bool-cases,
  Option-cases, ==_iff, length, get_elem?, take, drop, all, All, All-append, All-map, all→All,
  All→all, length-append, length-map, take-inside, drop-inside, take-beyond, drop-beyond, take_all,
  take-append-drop, length-take-le, append-cancel_left, take-append, drop-append, Result, ok, err,
  bail_if, context, ok_or, is_ok, or_zero, within, Context, Error, >>=-eq-ok, ok_or-eq-ok,
  context-eq-ok, bail_if-eq-ok, Result-cases, creating, reading, parsing, writing, setting_mode,
  removing, serializing_state, locating_executable, reading_current_dir, reading_stdin,
  starting_daemon, rounds_over, panics, no_session, no_name_set, empty_message, unexpected_reply,
  daemon_did_not_start, io_failed, bad_toml, bad_json, unknown_peer, restricting_socket,
  binding_endpoint, binding_socket, removing_socket,
}

-- A path is its text, and a span of time a number of milliseconds.
pub data Call : Type 0 where
  requests : (socket : Text) → Request → (timeout : ℕ) → Call
  checks : (path : Text) → Call
  spawns : (program : Text) → (args : List Text) → Call
  sleeps : (ms : ℕ) → Call
  serves : (dir : Text) → Call
  reads : (path : Text) → Call
  lists : (path : Text) → Call
  creates : (path : Text) → Call
  writes : (path contents : Text) → Call
  restricts : (path : Text) → (mode : ℕ) → Call
  removes : (path : Text) → Call
  binds : (path : Text) → Call
  draws : (bytes : ℕ) → Call
  reads_stdin : Call
  asks : (preview : Text) → Call
  -- one `println!`, and one `eprintln!`
  prints : Text → Call
  eprints : Text → Call

-- What reading a file gives, and what listing the directories in a directory gives.
pub data File : Type 0 where
  missing unreadable : File
  holds : Text → File

pub data Directory : Type 0 where
  missing unreadable : Directory
  holds : List Text → Directory

-- The calls that were made, the latest first.
abbrev pub Trace : Type 0
Trace = List Call

-- `wire` is how the connection to the socket goes in the time that is given, if it does; `endpoint`
-- is how binding an endpoint of iroh ends, for the key; `answer` is what the operator types at the
-- terminal, where there is one; `public` is the text of the public half of a key; the last fields are `toml` and `serde_json` at what is kept and printed.
pub record System : Type 0 where
  pub environment : Environment
  pub wire : Trace → Text → Request → Option Wire
  pub json : Json
  pub exists : Trace → Text → Bool
  pub executable : Trace → Result Text
  pub spawned : Trace → Text → List Text → Result (Unit {0})
  pub now : Trace → ℕ
  pub served : Trace → Text → Result (Unit {0})
  pub file : Trace → Text → File
  pub entries : Trace → Text → Directory
  pub created : Trace → Text → Result (Unit {0})
  pub written : Trace → Text → Text → Result (Unit {0})
  pub restricted : Trace → Text → ℕ → Result (Unit {0})
  pub removed : Trace → Text → Result (Unit {0})
  pub bound : Trace → Text → Result (Unit {0})
  pub endpoint : Trace → List ℕ → Result (Unit {0})
  pub current_dir : Trace → Result Text
  pub random : Trace → ℕ → List ℕ
  pub stdin : Trace → Result Text
  pub answer : Trace → Option Text
  pub public : List ℕ → Text
  pub identity_toml : Identity → Option Text
  pub toml_identity : Text → Option Identity
  pub peers_toml : Peers → Option Text
  pub toml_peers : Text → Option Peers
  pub id_json : Text → Text
  pub peers_json : Peers → Option Text
  pub status_json : StatusInfo → Option Text
  pub message_json : Message → Option Text

-- A fallible action that makes calls.
abbrev pub M {ℓ} : Type ℓ → Type ℓ
M A = Trace → Result A × Trace

infixl 5 ◌>>=◌ ◌>>◌
abbrev pub ◌>>=◌ : {A B : Type 0} → M A → (A → M B) → M B
◌>>=◌ m f t = elim (m t).0 [ err e ↦ (err e, (m t).1) | ok a ↦ f a (m t).1 ]

abbrev pub ◌>>◌ : {A B : Type 0} → M A → M B → M B
m >> k = m >>= λ _. k

abbrev pub return : {A : Type 0} → A → M A
return a t = (ok a, t)

-- A result that was computed with no call.
abbrev pub lift : {A : Type 0} → Result A → M A
lift r t = (r, t)

-- `let _ = m`, and `match m`: the failure is a value.
abbrev pub attempt : {A : Type 0} → M A → M (Result A)
attempt m t = (ok (m t).0, (m t).1)

-- A call whose answer cannot fail.
abbrev pub call : Call → M (Unit {0})
call c t = (ok tt, c ∷ t)

abbrev pub cond_m : {A : Type 0} → Bool → M A → M A → M A
cond_m b m k t = if b then m t else k t

module _ (S : System) where
  -- `request` of src/ipc.rs at the socket, which gives up after the timeout
  unfoldable pub ask_daemon : Text → Request → ℕ → M Response
  ask_daemon socket req timeout t =
      (Exchange.request S.json (S.wire t socket req) req, requests socket req timeout ∷ t)

  unfoldable pub path_exists : Text → M Bool
  path_exists path t = (ok (S.exists t path), checks path ∷ t)

  -- `is_daemon_running` of src/ipc.rs
  unfoldable pub daemon_is_running : Text → M Bool
  unfolding path_exists ask_daemon
  daemon_is_running socket = do
    exists ← path_exists socket
    cond_m exists
        (do reply ← attempt (ask_daemon socket Request.status 2000); return (is_answer reply))
        (return false)

  unfoldable pub current_exe : M Text
  current_exe t = (context locating_executable (S.executable t), t)

  unfoldable pub spawn : Text → List Text → M (Unit {0})
  spawn program args t =
      (context (starting_daemon program) (S.spawned t program args), spawns program args ∷ t)

  -- `Instant::now()`
  unfoldable pub clock : M ℕ
  clock t = (ok (S.now t), t)

  unfoldable pub current_dir : M Text
  current_dir t = (context reading_current_dir (S.current_dir t), t)

  -- `create_dir_all`, `write` and the mode of a file, with what is said of their failures
  unfoldable pub create_dir : Text → M (Unit {0})
  create_dir path t = (context (creating path) (S.created t path), creates path ∷ t)

  unfoldable pub write : Text → Text → M (Unit {0})
  write path contents t =
      (context (writing path) (S.written t path contents), writes path contents ∷ t)

  unfoldable pub set_mode : Text → ℕ → M (Unit {0})
  set_mode path mode t =
      (context (setting_mode path) (S.restricted t path mode), restricts path mode ∷ t)

  unfoldable pub read_file : Text → M File
  read_file path t = (ok (S.file t path), reads path ∷ t)

  unfoldable pub list_dir : Text → M Directory
  list_dir path t = (ok (S.entries t path), lists path ∷ t)

  unfoldable pub read_stdin : M Text
  read_stdin t = (context reading_stdin (S.stdin t), reads_stdin ∷ t)

  -- What is typed at the terminal, below what is shown there.
  unfoldable pub ask : Text → M (Option Text)
  ask preview t = (ok (S.answer t), asks preview ∷ t)

  -- the tasks of a daemon, until it is told to stop
  unfoldable pub serve : Text → M (Unit {0})
  serve dir t = (S.served t dir, serves dir ∷ t)

  unfoldable pub remove_dir : Text → M (Unit {0})
  remove_dir path t = (context (removing path) (S.removed t path), removes path ∷ t)

  unfoldable pub draw : ℕ → M (List ℕ)
  draw bytes t = (ok (S.random t bytes), draws bytes ∷ t)

  unfoldable pub remove_file : Text → M (Unit {0})
  remove_file path t = (context removing_socket (S.removed t path), removes path ∷ t)

  unfoldable pub bind_listener : Text → M (Unit {0})
  bind_listener path t = (context binding_socket (S.bound t path), binds path ∷ t)

  -- the mode `0o600` of the socket
  unfoldable pub restrict_socket : Text → M (Unit {0})
  restrict_socket path t =
      (context restricting_socket (S.restricted t path 384), restricts path 384 ∷ t)

  unfoldable pub build_endpoint : List ℕ → M (Unit {0})
  build_endpoint key t = (context binding_endpoint (S.endpoint t key), t)
