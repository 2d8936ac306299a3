-- ===== src/Daemon/Process.antt =====
-- `run` of src/daemon.rs: a daemon from its start to its end, as a trace of calls of the system. What
-- it does while it serves is in the other files; here it is one call, from the start of its tasks to
-- the word that stops them. Closing the endpoint at the end has no result and is left out.
pub mod Makes
pub mod Taken
use agent2agent.Base.{
  ℕ, zero, suc, ◌+◌, ◌-◌, ◌*◌, ◌/◌, ◌%◌, ◌^◌, ◌≤◌, ◌<◌, ◌≡◌, refl, sym, ap, ◌∙◌, ◌≢◌, ◌↔◌, ◌⊎◌, inl,
  inr, Bool, true, false, not, ◌&&◌, ◌||◌, Option, none, some, List, [], ◌∷◌, ◌++◌, map, append-nil,
  append_assoc, arith, ltb, leb, if◌then◌else◌, Text, text, ◌==◌, nat_eq, text_eq, Bool-cases,
  Option-cases, ==_iff, length, get_elem?, take, drop, all, All, All-append, All-map, all→All,
  All→all, length-append, length-map, take-inside, drop-inside, take-beyond, drop-beyond, take_all,
  take-append-drop, length-take-le, append-cancel_left, take-append, drop-append, Result, ok, err,
  bail_if, context, ok_or, is_ok, or_zero, within, Context, Error, >>=-eq-ok, ok_or-eq-ok,
  context-eq-ok, bail_if-eq-ok, Result-cases, creating, reading, parsing, writing, setting_mode,
  removing, serializing_state, locating_executable, reading_current_dir, reading_stdin,
  starting_daemon, rounds_over, panics, no_session, no_name_set, empty_message, unexpected_reply,
  daemon_did_not_start, io_failed, bad_toml, bad_json, unknown_peer, daemon_already_running,
}
use agent2agent.Config.Paths.{Paths, socket, peers}
use agent2agent.Config.Store.{ensure_dir, load_key, load_peers}
use agent2agent.Daemon.Socket.{check_socket_path_length}
use agent2agent.System.{
  ◌>>=◌, ◌>>◌, M, System, return, lift, cond_m, attempt, path_exists, daemon_is_running,
  remove_file, bind_listener, build_endpoint, restrict_socket, serve,
}

module _ (S : System) where
  -- A socket file of a daemon that does not answer is cleared away.
  unfoldable pub clear_stale : Paths → M (Unit {0})
  clear_stale paths = do
    exists ← path_exists S (socket paths)
    cond_m exists (remove_file S (socket paths)) (return tt)

  unfoldable pub listen : Paths → M (Unit {0})
  listen paths = do bind_listener S (socket paths); restrict_socket S (socket paths)

  unfoldable pub unless_taken : Paths → Bool → M (Unit {0})
  unfolding clear_stale listen
  unless_taken paths running =
      cond_m running (lift (err daemon_already_running)) (clear_stale paths >> listen paths)

  -- `bind_ipc`, with its calls
  unfoldable pub bind_socket : Paths → M (Unit {0})
  unfolding unless_taken
  bind_socket paths = do
    ensure_dir S paths
    lift (check_socket_path_length (socket paths))
    daemon_is_running S (socket paths) >>= unless_taken paths

  -- The end of `run`: the socket file goes, whether that works or not.
  unfoldable pub serve_and_clean : Paths → M (Unit {0})
  serve_and_clean paths = do
    result ← attempt (serve S paths.dir)
    attempt (remove_file S (socket paths))
    lift result

  unfoldable pub run_daemon : Paths → M (Unit {0})
  unfolding bind_socket serve_and_clean
  run_daemon paths = do
    ensure_dir S paths
    key ← load_key S paths
    load_peers S (peers paths)
    bind_socket paths
    build_endpoint S key
    serve_and_clean paths
