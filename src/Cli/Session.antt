-- ===== src/Cli/Session.antt =====
-- Starting and ending a conversation in src/cli.rs: its directory, its daemon, and its end.
use agent2agent.Config.Store.{new_session_id, remove_state}
use agent2agent.Config.Paths.{for_session, socket, from_dir, Paths}
use agent2agent.Ipc.{Request}
use agent2agent.Base.{
  ℕ, zero, suc, ◌+◌, Bool, Option, none, some, List, [], ◌∷◌, ◌++◌, ltb, Text, text, nat_eq,
  text_eq, err, rounds_over, daemon_did_not_start,
}
use agent2agent.System.{
  ask_daemon, daemon_is_running, sleeps, spawn, clock, current_exe, eprints, M, System, ◌>>=◌, ◌>>◌,
  return, lift, call, cond_m, attempt,
}
use agent2agent.Cli.Command.{Cli, base}

abbrev pub daemon_start_timeout : ℕ
daemon_start_timeout = 30000

abbrev pub poll_ms : ℕ
poll_ms = 200

-- The rounds that the wait for a daemon is given: it ends by the clock before they are over.
abbrev pub start_rounds : ℕ
start_rounds = 151

unfoldable pub report : Option Text → M (Unit {0})
report none = return tt
report (some id) = call (
    eprints (
      text "session "
      ++ id
      ++ text " — pass --session "
      ++ id
      ++ text " (or export AGENT2AGENT_SESSION="
      ++ id
      ++ text ") on every later command"))

unfoldable pub report_session : Paths → M (Unit {0})
report_session paths = report paths.session

-- What is started: `agent2agent --home DIR daemon`.
unfoldable pub daemon_args : Paths → List Text
daemon_args paths = text "--home" ∷ paths.dir ∷ text "daemon" ∷ []

module _ (S : System) where
  unfoldable pub mint_at : Text → M Paths
  mint_at dir = do id ← new_session_id S; lift (for_session dir id)

  unfoldable pub mint : Cli → M Paths
  unfolding mint_at
  mint self = do dir ← lift (base S.environment self); mint_at dir

  -- The new session, by the directory and the session that are given.
  unfoldable pub minted_at : Option Text → Option Text → Cli → M Paths
  minted_at (some dir) none self = return (from_dir dir)
  minted_at (some dir) (some id) self = mint self
  minted_at none session self = mint self

  -- `Cli::new_session`
  unfoldable pub new_session : Cli → M Paths
  new_session self = minted_at self.home self.session self

  -- One round of the loop of `end_session`, and the loop: the daemon is given that many rounds to
  -- release its socket.
  unfoldable pub end_asked : M (Unit {0}) → Bool → M (Unit {0})
  end_asked next running = cond_m running (call (sleeps 100) >> next) (return tt)

  unfoldable pub end_round : M (Unit {0}) → Text → M (Unit {0})
  unfolding end_asked
  end_round next socket = do running ← daemon_is_running S socket; end_asked next running

  unfoldable pub wait_for_end : ℕ → Text → M (Unit {0})
  wait_for_end zero socket = return tt
  wait_for_end (suc rounds) socket = end_round (wait_for_end rounds socket) socket

  unfoldable pub remove_session : Option Text → Paths → M (Unit {0})
  remove_session none paths = return tt
  remove_session (some id) paths = do
    remove_state S paths
    call (eprints (text "conversation ended"))

  unfoldable pub end_session : Paths → M (Unit {0})
  end_session paths = do
    attempt (ask_daemon S (socket paths) Request.shutdown 10000)
    wait_for_end 20 (socket paths)
    remove_session paths.session paths

  -- One round of the loop of `ensure_daemon`, and the loop, which the rounds bound.
  unfoldable pub once_asked : M (Unit {0}) → Bool → M (Unit {0})
  once_asked next running = cond_m running (return tt) (call (sleeps poll_ms) >> next)

  unfoldable pub start_round : M (Unit {0}) → ℕ → Text → M (Unit {0})
  unfolding once_asked
  start_round next deadline socket = do
    time ← clock S
    cond_m (ltb time deadline) (do running ← daemon_is_running S socket; once_asked next running)
        (lift (err daemon_did_not_start))

  unfoldable pub wait_for_daemon : ℕ → ℕ → Text → M (Unit {0})
  wait_for_daemon zero deadline socket = lift (err rounds_over)
  wait_for_daemon (suc rounds) deadline socket =
      start_round (wait_for_daemon rounds deadline socket) deadline socket

  -- The parts of `ensure_daemon`, from the last on.
  unfoldable pub await_daemon : Paths → M (Unit {0})
  await_daemon paths = do
    started ← clock S
    wait_for_daemon start_rounds (started + daemon_start_timeout) (socket paths)

  unfoldable pub spawned : Paths → Text → M (Unit {0})
  unfolding await_daemon
  spawned paths program = spawn S program (daemon_args paths) >> await_daemon paths

  unfoldable pub start_daemon : Paths → M (Unit {0})
  start_daemon paths = current_exe S >>= spawned paths

  unfoldable pub unless_running : Paths → Bool → M (Unit {0})
  unless_running paths running = cond_m running (return tt) (start_daemon paths)

  unfoldable pub ensure_daemon : Paths → M (Unit {0})
  unfolding unless_running
  ensure_daemon paths = do
    running ← daemon_is_running S (socket paths)
    unless_running paths running
