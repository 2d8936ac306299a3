-- ===== src/Daemon/Process/Taken.antt =====
-- `run` of src/daemon.rs beside a daemon that is running: the second one gives way.
use agent2agent.Base.{ℕ, ◌≡◌, refl, true, List, nat_eq, text_eq, ok}
use agent2agent.Config.Paths.{Paths, socket, peers}
use agent2agent.Config.Store.{ensure_dir, load_key, load_peers}
use agent2agent.Config.Store.Makes.{store_makes}
use agent2agent.Daemon.Process.{unless_taken, bind_socket, serve_and_clean, run_daemon}
use agent2agent.Daemon.Socket.{check_socket_path_length}
use agent2agent.System.{
  ◌>>=◌, Call, M, System, Trace, lift, binds, removes, serves, build_endpoint, daemon_is_running,
}
use agent2agent.System.Bind.{Fails, bind-ok, bind-Fails, bind-stops, stops-Fails}
use agent2agent.System.Makes.{Makes, calls_make, bind-Makes, daemon_is_running-Makes}

-- No file is deleted, no socket is bound, and nothing is served.
abbrev pub GivesWay : Call → Type 0
GivesWay (removes path) = ⊥
GivesWay (binds path) = ⊥
GivesWay (serves dir) = ⊥
GivesWay _ = Unit {0}

module _ (S : System) (self : Paths)
    (answers : (t : Trace) → (daemon_is_running S (socket self) t).0 ≡ ok true) where
  look-stops :
      (t : Trace)
      → ◌>>=◌ (daemon_is_running S (socket self)) (unless_taken S self) t
        ≡ unless_taken S self true (daemon_is_running S (socket self) t).1
  look-stops t =
      bind-ok (daemon_is_running S (socket self)) (unless_taken S self) t
        (daemon_is_running S (socket self) t).1 true
        (λ i. (answers t i, (daemon_is_running S (socket self) t).1))

  look-Fails : Fails (daemon_is_running S (socket self) >>= unless_taken S self)
  unfolding unless_taken
  look-Fails t = rw (look-stops t) refl

  look-Makes : Makes GivesWay (daemon_is_running S (socket self) >>= unless_taken S self)
  unfolding unless_taken
  look-Makes = record {
    made = λ t h. rw (look-stops t) (
        let m : Makes GivesWay (daemon_is_running S (socket self)) =
          daemon_is_running-Makes S (socket self) tt tt in
        m.made t h);
  }

  measured : M (Unit {0})
  measured = lift (check_socket_path_length (socket self)) >>= λ _.
      daemon_is_running S (socket self) >>= unless_taken S self

  measured-Fails : Fails measured
  unfolding measured
  measured-Fails =
      bind-Fails (lift (check_socket_path_length (socket self)))
        (λ _. daemon_is_running S (socket self) >>= unless_taken S self) (λ _. look-Fails)

  bind_socket-Fails : Fails (bind_socket S self)
  unfolding bind_socket measured
  bind_socket-Fails = bind-Fails (ensure_dir S self) (λ _. measured) (λ _. measured-Fails)

  bind_socket-Makes : Makes GivesWay (bind_socket S self)
  unfolding bind_socket
  bind_socket-Makes = search (calls_make, store_makes, look-Makes, tt) depth 12

  -- What `run` does once the peer list is loaded, from there, and from the key.
  from_socket : List ℕ → M (Unit {0})
  from_socket key = bind_socket S self >>= λ _. build_endpoint S key >>= λ _. serve_and_clean S self

  from_peers : List ℕ → M (Unit {0})
  unfolding from_socket
  from_peers key = load_peers S (peers self) >>= λ _. from_socket key

  from_key : M (Unit {0})
  unfolding from_peers
  from_key = load_key S self >>= from_peers

  from_socket-GivesWay : (key : List ℕ) → Makes GivesWay (from_socket key) × Fails (from_socket key)
  unfolding from_socket
  from_socket-GivesWay key =
      let rest = λ (_ : Unit {0}). build_endpoint S key >>= λ _. serve_and_clean S self in
      (
        record {
          made = λ t h.
              rw (bind-stops (bind_socket S self) rest bind_socket-Fails t)
                (bind_socket-Makes.made t h);
        },
        stops-Fails (bind_socket S self) rest bind_socket-Fails,
      )

  from_peers-GivesWay : (key : List ℕ) → Makes GivesWay (from_peers key) × Fails (from_peers key)
  unfolding from_peers
  from_peers-GivesWay key = (
    bind-Makes (load_peers S (peers self)) (λ _. from_socket key)
        (search (calls_make, store_makes, tt) depth 12) (λ _. (from_socket-GivesWay key).0),
    bind-Fails (load_peers S (peers self)) (λ _. from_socket key)
        (λ _. (from_socket-GivesWay key).1),
  )

  from_key-GivesWay : Makes GivesWay from_key × Fails from_key
  unfolding from_key
  from_key-GivesWay = (
    bind-Makes (load_key S self) from_peers (search (calls_make, store_makes, tt) depth 12)
        (λ key. (from_peers-GivesWay key).0),
    bind-Fails (load_key S self) from_peers (λ key. (from_peers-GivesWay key).1),
  )

  -- A second daemon, started while one answers at the socket of the conversation, fails, and it
  -- deletes no file, binds no socket and serves nothing.
  pub run_daemon-GivesWay : Makes GivesWay (run_daemon S self) × Fails (run_daemon S self)
  unfolding run_daemon from_key from_peers from_socket
  run_daemon-GivesWay = (
    bind-Makes (ensure_dir S self) (λ _. from_key) (search (calls_make, store_makes, tt) depth 12)
        (λ _. from_key-GivesWay.0),
    bind-Fails (ensure_dir S self) (λ _. from_key) (λ _. from_key-GivesWay.1),
  )
