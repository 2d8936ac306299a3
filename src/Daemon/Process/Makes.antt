-- ===== src/Daemon/Process/Makes.antt =====
-- `run` and `bind_ipc` of src/daemon.rs: the calls that a daemon makes from its start to its end.
use agent2agent.Base.{ℕ, Bool, Text, nat_eq, text_eq}
use agent2agent.Config.Paths.{Paths, socket, peers, secret_key}
use agent2agent.Config.Store.{owner_dir, owner_file}
use agent2agent.Config.Store.Makes.{store_makes}
use agent2agent.Daemon.Process.{
  clear_stale, listen, unless_taken, bind_socket, serve_and_clean, run_daemon,
}
use agent2agent.Ipc.{Request}
use agent2agent.System.{
  Call, System, binds, checks, creates, draws, reads, removes, requests, restricts, serves, writes,
}
use agent2agent.System.Makes.{Makes, calls_make}

module _ (S : System) (self : Paths) {P : Call → Type 0}
    (talks : (req : Request) (timeout : ℕ) → P (requests (socket self) req timeout))
    (looks : P (checks (socket self))) (looks_at : P (checks (secret_key self)))
    (makes_it : P (creates self.dir)) (restricts_dir : P (restricts self.dir owner_dir))
    (reads_key : P (reads (secret_key self))) (reads_peers : P (reads (peers self)))
    (random : P (draws 32)) (writes_it : (contents : Text) → P (writes (secret_key self) contents))
    (restricts_key : P (restricts (secret_key self) owner_file)) (listens : P (binds (socket self)))
    (restricts_socket : P (restricts (socket self) owner_file))
    (removes_it : P (removes (socket self))) (serves_it : P (serves self.dir)) where
  clear_stale-Makes : Makes P (clear_stale S self)
  unfolding clear_stale
  clear_stale-Makes = search calls_make

  listen-Makes : Makes P (listen S self)
  unfolding listen
  listen-Makes = search calls_make

  unless_taken-Makes : (running : Bool) → Makes P (unless_taken S self running)
  unfolding unless_taken
  unless_taken-Makes running = search (calls_make, clear_stale-Makes, listen-Makes) depth 12

  bind_socket-Makes : Makes P (bind_socket S self)
  unfolding bind_socket
  bind_socket-Makes = search (calls_make, store_makes, unless_taken-Makes) depth 12

  serve_and_clean-Makes : Makes P (serve_and_clean S self)
  unfolding serve_and_clean
  serve_and_clean-Makes = search calls_make depth 12

  pub run_daemon-Makes : Makes P (run_daemon S self)
  unfolding run_daemon
  run_daemon-Makes =
      search (calls_make, store_makes, bind_socket-Makes, serve_and_clean-Makes) depth 12
