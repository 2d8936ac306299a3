-- ===== src/Cli/Reach/Starts.antt =====
-- The calls that starting and ending a conversation make.
use agent2agent.Ipc.{Request}
use agent2agent.Config.Paths.{socket, Paths}
use agent2agent.Base.{ℕ, zero, suc, ◌≢◌, Option, none, some, Text, nat_eq, text_eq}
use agent2agent.Cli.Session.{
  end_round, start_round, daemon_args, ensure_daemon, start_daemon, spawned, await_daemon,
  wait_for_daemon, wait_for_end, end_session, remove_session,
}
use agent2agent.Config.Store.Makes.{remove_state-Makes}
use agent2agent.System.{M, removes, eprints, spawns, sleeps, checks, requests, System, Call}
use agent2agent.System.Makes.{Makes, calls_make}

module _ (S : System) (self : Paths) {P : Call → Type 0}
    (talks : (req : Request) (timeout : ℕ) → P (requests (socket self) req timeout))
    (looks : P (checks (socket self))) (waits : (ms : ℕ) → P (sleeps ms)) where
  start_round-Makes :
      (next : M (Unit {0})) (deadline : ℕ)
      → Makes P next
      → Makes P (start_round S next deadline (socket self))
  unfolding start_round
  start_round-Makes next deadline h = search calls_make depth 12

  wait_for_daemon-Makes :
      (rounds deadline : ℕ) → Makes P (wait_for_daemon S rounds deadline (socket self))
  unfolding wait_for_daemon
  wait_for_daemon-Makes zero deadline = search calls_make
  wait_for_daemon-Makes (suc rounds) deadline =
      start_round-Makes _ deadline (wait_for_daemon-Makes rounds deadline)

  start_daemon-Makes :
      ((program : Text) → P (spawns program (daemon_args self))) → Makes P (start_daemon S self)
  unfolding start_daemon spawned await_daemon
  start_daemon-Makes started = search (calls_make, wait_for_daemon-Makes) depth 12

  pub ensure_daemon-Makes :
      ((program : Text) → P (spawns program (daemon_args self))) → Makes P (ensure_daemon S self)
  unfolding ensure_daemon
  ensure_daemon-Makes started = search (calls_make, start_daemon-Makes) depth 12

  end_round-Makes : (next : M (Unit {0})) → Makes P next → Makes P (end_round S next (socket self))
  unfolding end_round
  end_round-Makes next h = search calls_make depth 12

  wait_for_end-Makes : (rounds : ℕ) → Makes P (wait_for_end S rounds (socket self))
  unfolding wait_for_end
  wait_for_end-Makes zero = search calls_make
  wait_for_end-Makes (suc rounds) = end_round-Makes _ (wait_for_end-Makes rounds)

  module _ (says : (shown : Text) → P (eprints shown)) (looks_at : P (checks self.dir)) where
    remove_session-Makes :
        (session : Option Text)
        → (session ≢ none → P (removes self.dir))
        → Makes P (remove_session S session self)
    unfolding remove_session
    remove_session-Makes none removed = search calls_make
    remove_session-Makes (some id) removed =
        let allowed : P (removes self.dir) = removed (λ e. cc) in
        search (calls_make, remove_state-Makes) depth 12

    pub end_session-Makes :
        (self.session ≢ none → P (removes self.dir)) → Makes P (end_session S self)
    unfolding end_session
    end_session-Makes removed =
        search (calls_make, wait_for_end-Makes, remove_session-Makes) depth 12
