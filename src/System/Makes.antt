-- ===== src/System/Makes.antt =====
-- Which calls an action makes.
use agent2agent.Ipc.{Request}
use agent2agent.Base.{ℕ, Bool, true, false, List, Text, nat_eq, text_eq, All, Result, ok, err}
use agent2agent.System.{
  binds, bind_listener, build_endpoint, restrict_socket, remove_file, requests, asks, checks,
  creates, draws, lists, reads, reads_stdin, removes, restricts, serves, spawns, writes, ask,
  ask_daemon, clock, create_dir, current_dir, current_exe, daemon_is_running, draw, list_dir,
  path_exists, read_file, read_stdin, remove_dir, serve, set_mode, spawn, write, System, ◌>>=◌,
  return, lift, call, cond_m, attempt, M, Call, Trace,
}

-- The action makes no calls but those of `P`.
pub record Makes {A : Type 0} (P : Call → Type 0) (m : M A) : Type 0 where
  pub made : (t : Trace) → All P t → All P (m t).1

module _ {P : Call → Type 0} where
  pub return-Makes : {A : Type 0} (a : A) → Makes P (return a)
  return-Makes a = record { made = λ t h. h }

  pub lift-Makes : {A : Type 0} (r : Result A) → Makes P (lift r)
  lift-Makes r = record { made = λ t h. h }

  pub call-Makes : (c : Call) → P c → Makes P (call c)
  call-Makes c p = record { made = λ t h. (p, h) }

  pub attempt-Makes : {A : Type 0} (m : M A) → Makes P m → Makes P (attempt m)
  attempt-Makes m h = record { made = λ t k. h.made t k }

  pub cond-Makes :
      {A : Type 0} (b : Bool) (m k : M A) → Makes P m → Makes P k → Makes P (cond_m b m k)
  cond-Makes true m k hm hk = hm
  cond-Makes false m k hm hk = hk

  then_made :
      {A B : Type 0} (r : Result A) (f : A → M B)
      → ((a : A) → Makes P (f a))
      → (t : Trace) → All P t
      → All P (◌>>=◌ (lift r) f t).1
  then_made (ok a) f hf t h = (hf a).made t h
  then_made (err e) f hf t h = h

  pub bind-Makes :
      {A B : Type 0} (m : M A) (f : A → M B)
      → Makes P m
      → ((a : A) → Makes P (f a))
      → Makes P (m >>= f)
  bind-Makes m f hm hf = record { made = λ t h. then_made (m t).0 f hf (m t).1 (hm.made t h) }

pub ruleset makes = (return-Makes, lift-Makes, call-Makes, attempt-Makes, cond-Makes, bind-Makes)

-- One call of the system: the premise is that it is one of `P`.
module _ (S : System) {P : Call → Type 0} where
  pub ask_daemon-Makes :
      (path : Text) (req : Request) (timeout : ℕ)
      → P (requests path req timeout)
      → Makes P (ask_daemon S path req timeout)
  unfolding ask_daemon
  ask_daemon-Makes path req timeout p = record { made = λ t h. (p, h) }

  pub path_exists-Makes : (path : Text) → P (checks path) → Makes P (path_exists S path)
  unfolding path_exists
  path_exists-Makes path p = record { made = λ t h. (p, h) }

  pub daemon_is_running-Makes :
      (path : Text)
      → P (checks path)
      → P (requests path Request.status 2000)
      → Makes P (daemon_is_running S path)
  unfolding daemon_is_running
  daemon_is_running-Makes path p q = search (makes, ask_daemon-Makes, path_exists-Makes)

  pub current_exe-Makes : Makes P (current_exe S)
  unfolding current_exe
  current_exe-Makes = record { made = λ t h. h }

  pub spawn-Makes :
      (program : Text) (args : List Text) → P (spawns program args) → Makes P (spawn S program args)
  unfolding spawn
  spawn-Makes program args p = record { made = λ t h. (p, h) }

  pub clock-Makes : Makes P (clock S)
  unfolding clock
  clock-Makes = record { made = λ t h. h }

  pub current_dir-Makes : Makes P (current_dir S)
  unfolding current_dir
  current_dir-Makes = record { made = λ t h. h }

  pub create_dir-Makes : (path : Text) → P (creates path) → Makes P (create_dir S path)
  unfolding create_dir
  create_dir-Makes path p = record { made = λ t h. (p, h) }

  pub write-Makes :
      (path contents : Text) → P (writes path contents) → Makes P (write S path contents)
  unfolding write
  write-Makes path contents p = record { made = λ t h. (p, h) }

  pub set_mode-Makes :
      (path : Text) (mode : ℕ) → P (restricts path mode) → Makes P (set_mode S path mode)
  unfolding set_mode
  set_mode-Makes path mode p = record { made = λ t h. (p, h) }

  pub read_file-Makes : (path : Text) → P (reads path) → Makes P (read_file S path)
  unfolding read_file
  read_file-Makes path p = record { made = λ t h. (p, h) }

  pub remove_dir-Makes : (path : Text) → P (removes path) → Makes P (remove_dir S path)
  unfolding remove_dir
  remove_dir-Makes path p = record { made = λ t h. (p, h) }

  pub draw-Makes : (bytes : ℕ) → P (draws bytes) → Makes P (draw S bytes)
  unfolding draw
  draw-Makes bytes p = record { made = λ t h. (p, h) }

  pub list_dir-Makes : (path : Text) → P (lists path) → Makes P (list_dir S path)
  unfolding list_dir
  list_dir-Makes path p = record { made = λ t h. (p, h) }

  pub read_stdin-Makes : P reads_stdin → Makes P (read_stdin S)
  unfolding read_stdin
  read_stdin-Makes p = record { made = λ t h. (p, h) }

  pub ask-Makes : (preview : Text) → P (asks preview) → Makes P (ask S preview)
  unfolding ask
  ask-Makes preview p = record { made = λ t h. (p, h) }

  pub serve-Makes : (dir : Text) → P (serves dir) → Makes P (serve S dir)
  unfolding serve
  serve-Makes dir p = record { made = λ t h. (p, h) }

  pub remove_file-Makes : (path : Text) → P (removes path) → Makes P (remove_file S path)
  unfolding remove_file
  remove_file-Makes path p = record { made = λ t h. (p, h) }

  pub bind_listener-Makes : (path : Text) → P (binds path) → Makes P (bind_listener S path)
  unfolding bind_listener
  bind_listener-Makes path p = record { made = λ t h. (p, h) }

  pub restrict_socket-Makes :
      (path : Text) → P (restricts path 384) → Makes P (restrict_socket S path)
  unfolding restrict_socket
  restrict_socket-Makes path p = record { made = λ t h. (p, h) }

  pub build_endpoint-Makes : (key : List ℕ) → Makes P (build_endpoint S key)
  unfolding build_endpoint
  build_endpoint-Makes key = record { made = λ t h. h }

pub ruleset calls_make = (
  makes, ask_daemon-Makes, path_exists-Makes, daemon_is_running-Makes, current_exe-Makes,
  spawn-Makes, clock-Makes, current_dir-Makes, create_dir-Makes, write-Makes, set_mode-Makes,
  read_file-Makes, remove_dir-Makes, draw-Makes, list_dir-Makes, read_stdin-Makes, ask-Makes,
  serve-Makes, remove_file-Makes, bind_listener-Makes, restrict_socket-Makes, build_endpoint-Makes,
)
