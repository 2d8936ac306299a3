-- ===== src/Cli/Start/Whole.antt =====
-- The whole of `ensure_daemon`, from the first question to its end.
use agent2agent.Cli.Session.{await_daemon, spawned}
use agent2agent.Base.{
  ◌+◌, ◌≡◌, refl, inl, inr, true, false, List, ◌∷◌, arith, Text, nat_eq, text_eq, Bool-cases,
  Result, ok, err, context, within, Error, Result-cases, locating_executable, starting_daemon,
}
use agent2agent.Cli.Session.{
  spawned, unless_running, ensure_daemon, start_daemon, daemon_args, daemon_start_timeout,
}
use agent2agent.Cli.Start.{answering, probed, IsClock, Ended, wait-Ended, daemon_is_running_lem}
use agent2agent.Config.Paths.{Paths, socket}
use agent2agent.System.Bind.{bind-ok, bind-err}
use agent2agent.System.{System, Trace, spawns, daemon_is_running, current_exe, spawn, clock}

-- The calls up to the start of the program.
abbrev pub launched : System → Paths → Text → Trace → Trace
launched S self program t = spawns program (daemon_args self) ∷ probed S (socket self) t

-- How `ensure_daemon` ends after the calls of `t`: a daemon was there, none could be started, or
-- one was started and waited for.
pub data Started (S : System) (self : Paths) (t : Trace) : Result (Unit {0}) × Trace → Type 0 where
  already : answering S (socket self) t ≡ true → Started S self t (ok tt, probed S (socket self) t)
  no_program :
      (e : Error)
      → answering S (socket self) t ≡ false
      → S.executable (probed S (socket self) t) ≡ err e
      → Started S self t (err (within locating_executable e), probed S (socket self) t)
  not_spawned :
      (program : Text) (e : Error)
      → answering S (socket self) t ≡ false
      → S.spawned (probed S (socket self) t) program (daemon_args self) ≡ err e
      → Started S self t (err (within (starting_daemon program) e), launched S self program t)
  waited :
      (program : Text) (end_ : Result (Unit {0}) × Trace)
      → answering S (socket self) t ≡ false
      → Ended S (socket self) (S.now (launched S self program t) + daemon_start_timeout) end_
      → Started S self t end_

pub spawn-at :
    (S : System) (program : Text) (args : List Text) (u : Trace) (r : Result (Unit {0}))
    → S.spawned u program args ≡ r
    → spawn S program args u ≡ (context (starting_daemon program) r, spawns program args ∷ u)
unfolding spawn
spawn-at S program args u r e = rw e refl

pub exe-at :
    (S : System) (u : Trace) (r : Result Text)
    → S.executable u ≡ r
    → current_exe S u ≡ (context locating_executable r, u)
unfolding current_exe
exe-at S u r e = rw e refl

module _ (S : System) (clock_law : IsClock S) (self : Paths) (t : Trace) where
  awaited-Started :
      (program : Text)
      → answering S (socket self) t ≡ false
      → Started S self t (await_daemon S self (launched S self program t))
  unfolding await_daemon clock
  awaited-Started program no_answer =
      let v = launched S self program t in
      waited program _ no_answer
        (wait-Ended S clock_law (socket self) (S.now v + daemon_start_timeout) 150 v (omega arith))

  spawned-Started :
      (program : Text)
      → answering S (socket self) t ≡ false
      → Started S self t (spawned S self program (probed S (socket self) t))
  unfolding spawned
  spawned-Started program no_answer =
      let u = probed S (socket self) t in
      let v = launched S self program t in
      let m = spawn S program (daemon_args self) in
      let next = λ (_ : Unit {0}). await_daemon S self in
      elim (Result-cases (S.spawned u program (daemon_args self))) [
        | inr bad ↦
            rw
              (bind-err m next u v (within (starting_daemon program) bad.0)
                (spawn-at S program (daemon_args self) u (err bad.0) bad.1))
              (not_spawned program bad.0 no_answer bad.1)
        | inl good ↦
            rw (bind-ok m next u v tt (spawn-at S program (daemon_args self) u (ok tt) good.1))
              (awaited-Started program no_answer)
      ]

  unanswered-Started :
      answering S (socket self) t ≡ false
      → Started S self t (start_daemon S self (probed S (socket self) t))
  unfolding start_daemon
  unanswered-Started no_answer =
      let u = probed S (socket self) t in
      elim (Result-cases (S.executable u)) [
        | inr bad ↦
            rw
              (bind-err (current_exe S) (spawned S self) u u (within locating_executable bad.0)
                (exe-at S u (err bad.0) bad.1))
              (no_program bad.0 no_answer bad.1)
        | inl good ↦
            rw (bind-ok (current_exe S) (spawned S self) u u good.0 (exe-at S u (ok good.0) good.1))
              (spawned-Started good.0 no_answer)
      ]

  -- Where the clock is one, `ensure_daemon` ends in one of four ways. A daemon that answers is left
  -- alone. Else one is started with `--home` and the directory of the conversation, which may fail;
  -- and it succeeds only after the daemon has answered, or gives up only at a time when the thirty
  -- seconds are over. Its 151 rounds are enough: it never ends because they are over.
  pub ensure_daemon-Started : Started S self t (ensure_daemon S self t)
  unfolding ensure_daemon
  ensure_daemon-Started =
      rw
        (bind-ok (daemon_is_running S (socket self)) (unless_running S self) t
          (probed S (socket self) t) (answering S (socket self) t)
          (daemon_is_running_lem S (socket self) t))
        (elim (Bool-cases (answering S (socket self) t)) [
          | inl yes_ ↦ rw yes_ (already yes_)
          | inr no_ ↦ rw no_ (unanswered-Started no_)
        ])
