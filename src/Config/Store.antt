-- ===== src/Config/Store.antt =====
-- The files of src/config.rs: reading and writing identity.toml, peers.toml and secret.key, and
-- making and deleting the directory of a session.
pub mod Makes
pub mod Kept
use agent2agent.Config.Peers.{no_peers_yet, Peers}
use agent2agent.Config.Identity.{Identity}
use agent2agent.Util.{to_hex, random_hex}
use agent2agent.Config.Paths.{Paths, secret_key}
use agent2agent.Config.Key.{read_key}
use agent2agent.Base.{
  ℕ, zero, suc, ◌+◌, ◌-◌, ◌*◌, ◌/◌, ◌%◌, ◌^◌, ◌≤◌, ◌<◌, ◌≡◌, refl, sym, ap, ◌∙◌, ◌≢◌, ◌↔◌, ◌⊎◌, inl,
  inr, Bool, true, false, not, ◌&&◌, ◌||◌, Option, none, some, List, [], ◌∷◌, ◌++◌, map, append-nil,
  append_assoc, arith, ltb, leb, if◌then◌else◌, Text, text, ◌==◌, nat_eq, text_eq, Bool-cases,
  Option-cases, ==_iff, length, get_elem?, take, drop, all, All, All-append, All-map, all→All,
  All→all, length-append, length-map, take-inside, drop-inside, take-beyond, drop-beyond, take_all,
  take-append-drop, length-take-le, append-cancel_left, take-append, drop-append, Result, ok, err,
  bail_if, context, ok_or, is_ok, or_zero, within, Context, Error, >>=-eq-ok, ok_or-eq-ok,
  context-eq-ok, bail_if-eq-ok, Result-cases, creating, reading, parsing, writing, setting_mode,
  removing, serializing_state, locating_executable, reading_current_dir, reading_stdin,
  starting_daemon, rounds_over, panics, no_session, no_name_set, empty_message, unexpected_reply,
  daemon_did_not_start, io_failed, bad_toml, bad_json, unknown_peer,
}
use agent2agent.System.{
  read_file, M, remove_dir, set_mode, write, create_dir, draw, path_exists, File, System, ◌>>=◌,
  ◌>>◌, return, lift, cond_m,
}

-- The text before the last slash, where there is one.
abbrev pub before_slash : Text → Option Text
before_slash [] = none
before_slash (c ∷ s) = elim (before_slash s) [
  | some p ↦ some (c ∷ p)
  | none ↦ if c == b'/' then some [] else none
]

-- `Path::parent` of a path that ends in the name of a file
unfoldable pub parent : Text → Text
parent path = elim (before_slash path) [ none ↦ [] | some p ↦ if p == [] then text "/" else p ]

-- `0o700` and `0o600`
abbrev pub owner_dir : ℕ
owner_dir = 448

abbrev pub owner_file : ℕ
owner_file = 384

-- What is made of a file: a missing one is the default, and another is parsed.
abbrev pub parsed_file : {A : Type 0} → (Text → Option A) → A → Text → File → Result A
parsed_file parse default_ path File.missing = ok default_
parsed_file parse default_ path File.unreadable = err (within (reading path) io_failed)
parsed_file parse default_ path (File.holds contents) =
    context (parsing path) (ok_or bad_toml (parse contents))

module _ (S : System) where
  unfoldable pub ensure_dir : Paths → M (Unit {0})
  unfolding create_dir set_mode
  ensure_dir self = do create_dir S self.dir; set_mode S self.dir owner_dir

  -- `Paths::remove`
  unfoldable pub remove_state : Paths → M (Unit {0})
  unfolding path_exists remove_dir
  remove_state self = do
    exists ← path_exists S self.dir
    cond_m exists (remove_dir S self.dir) (return tt)

  unfoldable pub load_identity : Text → M Identity
  unfolding read_file
  load_identity path = do
    file ← read_file S path
    lift (parsed_file S.toml_identity (record { default = none; dirs = [] }) path file)

  -- What both `save` functions do: the directory, the text, and the file.
  abbrev pub write_text : Text → Result Text → M (Unit {0})
  write_text path serialized = do
    create_dir S (parent path)
    contents ← lift (context serializing_state serialized)
    write S path contents

  unfoldable pub save_identity : Identity → Text → M (Unit {0})
  unfolding create_dir write
  save_identity self path = write_text path (ok_or bad_toml (S.identity_toml self))

  unfoldable pub load_peers : Text → M Peers
  unfolding read_file
  load_peers path = do
    file ← read_file S path
    lift (parsed_file S.toml_peers no_peers_yet path file)

  unfoldable pub save_peers : Peers → Text → M (Unit {0})
  unfolding create_dir write set_mode
  save_peers self path =
      write_text path (ok_or bad_toml (S.peers_toml self)) >> set_mode S path owner_file

  -- What is made of the file of the key. One that is gone again could not be read.
  abbrev pub key_of : File → Result (List ℕ)
  key_of File.missing = err io_failed
  key_of File.unreadable = err io_failed
  key_of (File.holds contents) = read_key contents

  -- `load_or_create_secret_key`, with its calls
  unfoldable pub load_key : Paths → M (List ℕ)
  unfolding path_exists read_file write set_mode ensure_dir draw secret_key
  load_key paths = do
    exists ← path_exists S (secret_key paths)
    cond_m exists (do file ← read_file S (secret_key paths); lift (key_of file))
        (do
          ensure_dir paths
          key ← draw S 32
          write S (secret_key paths) (to_hex key ++ 10 ∷ [])
          set_mode S (secret_key paths) owner_file
          return key)

  unfoldable pub new_session_id : M Text
  unfolding draw
  new_session_id = do bytes ← draw S 4; return (random_hex bytes)
