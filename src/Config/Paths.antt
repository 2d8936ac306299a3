-- ===== src/Config/Paths.antt =====
-- `Paths` of src/config.rs: where the state of a session is kept. A path is its text.
pub mod Sessions
use agent2agent.Base.{
  ℕ, zero, suc, ◌+◌, ◌-◌, ◌*◌, ◌/◌, ◌%◌, ◌^◌, ◌≤◌, ◌<◌, ◌≡◌, refl, sym, ap, ◌∙◌, ◌≢◌, ◌↔◌, ◌⊎◌, inl,
  inr, Bool, true, false, not, ◌&&◌, ◌||◌, Option, none, some, List, [], ◌∷◌, ◌++◌, map, append-nil,
  append_assoc, arith, ltb, leb, if◌then◌else◌, Text, text, ◌==◌, nat_eq, text_eq, Bool-cases,
  Option-cases, ==_iff, length, get_elem?, take, drop, all, All, All-append, All-map, all→All,
  All→all, length-append, length-map, take-inside, drop-inside, take-beyond, drop-beyond, take_all,
  take-append-drop, length-take-le, append-cancel_left, take-append, drop-append, Result, ok, err,
  ◌>>=◌, ◌>>◌, bail_if, context, ok_or, is_ok, or_zero, within, Context, Error, >>=-eq-ok,
  ok_or-eq-ok, context-eq-ok, bail_if-eq-ok, Result-cases, creating, reading, parsing, writing,
  setting_mode, removing, serializing_state, locating_executable, reading_current_dir,
  reading_stdin, starting_daemon, rounds_over, panics, no_session, no_name_set, empty_message,
  unexpected_reply, daemon_did_not_start, io_failed, bad_toml, bad_json, unknown_peer,
  no_state_directory,
}
use agent2agent.Config.Name.{validate_session_id}

-- `ends_with('/')`
abbrev pub ends_with_slash : Text → Bool
ends_with_slash [] = false
ends_with_slash (c ∷ []) = c == b'/'
ends_with_slash (c ∷ d ∷ s) = ends_with_slash (d ∷ s)

-- `Path::join` of a part that is not absolute
unfoldable pub join_path : Text → Text → Text
join_path path part =
    if path == [] || ends_with_slash path then path ++ part else path ++ b'/' ∷ part

pub record Paths : Type 0 where
  pub base : Text
  pub dir : Text
  pub session : Option Text

unfoldable pub from_dir : Text → Paths
from_dir dir = record { base = dir; dir = dir; session = none }

-- The variables that name the base directory. One that is empty counts as unset.
pub record Environment : Type 0 where
  pub home_var : Option Text
  pub session_var : Option Text
  pub xdg_config_home : Option Text
  pub home : Option Text

-- `filter(|v| !v.is_empty())`
abbrev pub set_var : Option Text → Option Text
set_var none = none
set_var (some v) = if v == [] then none else some v

unfoldable pub base_dir : Environment → Result Text
base_dir env = elim (set_var env.home_var) [
  | some dir ↦ ok dir
  | none ↦ elim (set_var env.xdg_config_home) [
    | some xdg ↦ ok (join_path xdg (text "agent2agent"))
    | none ↦ do
      home ← ok_or no_state_directory (set_var env.home)
      ok (join_path (join_path home (text ".config")) (text "agent2agent"))
  ]
]

unfoldable pub sessions_dir : Text → Text
sessions_dir base = join_path base (text "sessions")

unfoldable pub for_session : Text → Text → Result Paths
for_session base session = do
  validate_session_id session
  ok (record { base = base; dir = join_path (sessions_dir base) session; session = some session })

-- The session that is given, else the variable's.
abbrev pub or_else : Option Text → Option Text → Option Text
or_else none o = o
or_else (some t) o = some t

unfoldable pub in_session : Text → Option Text → Result (Option Paths)
in_session base none = ok none
in_session base (some id) = do paths ← for_session base id; ok (some paths)

unfoldable pub resolve : Environment → Option Text → Result (Option Paths)
resolve env session = do
  base ← base_dir env
  in_session base (or_else session (set_var env.session_var))

unfoldable pub secret_key : Paths → Text
secret_key self = join_path self.dir (text "secret.key")

unfoldable pub peers : Paths → Text
peers self = join_path self.dir (text "peers.toml")

unfoldable pub socket : Paths → Text
socket self = join_path self.dir (text "daemon.sock")

unfoldable pub identity : Paths → Text
identity self = join_path self.base (text "identity.toml")
