-- ===== src/Cli/Start/Live.antt =====
-- `ensure_daemon` of src/cli.rs succeeds where the daemon comes up in time.
use agent2agent.Cli.Start.Whole.{exe-at, spawn-at, launched}
use agent2agent.Cli.Session.{
  unless_running, spawned, start_daemon, ensure_daemon, await_daemon, daemon_args,
  daemon_start_timeout, poll_ms, wait_for_daemon,
}
use agent2agent.System.Bind.{bind-ok}
use agent2agent.Config.Paths.{socket, Paths}
use native.Mathlib.Decide.{dec_lt}
use agent2agent.Base.{
  ℕ, zero, suc, ◌+◌, ◌*◌, ◌≤◌, ◌<◌, ◌≡◌, refl, ap, ◌∙◌, inl, inr, true, ◌∷◌, arith, Text, nat_eq,
  text_eq, Bool-cases, ok,
}
use agent2agent.Cli.Start.{
  daemon_is_running_lem, answering, probed, IsClock, up, waits, probed-later,
}
use agent2agent.System.{spawn, current_exe, daemon_is_running, clock, System, Trace, sleeps}

-- The daemon answers from the time `from` on.
abbrev pub IsUpFrom : System → Text → ℕ → Type 0
IsUpFrom S path from = (t : Trace) → from ≤ S.now t → answering S path t ≡ true

-- A question and a sleep take no longer than `round`.
abbrev pub IsPrompt : System → Text → ℕ → Type 0
IsPrompt S path round = (t : Trace) → S.now (sleeps poll_ms ∷ probed S path t) ≤ S.now t + round

module _ (S : System) (law : IsClock S) (path : Text) (from round deadline : ℕ)
    (up_from : IsUpFrom S path from) (prompt : IsPrompt S path round)
    (in_time : from + round ≤ deadline) where
  comes_up :
      (rounds : ℕ) (t : Trace)
      → S.now t < deadline
      → deadline ≤ S.now t + poll_ms * rounds
      → (wait_for_daemon S (suc rounds) deadline path t).0 ≡ ok tt
  unfolding wait_for_daemon
  comes_up zero t early enough = absurd (omega (arith, enough))
  comes_up (suc rounds) t early enough =
      let next = wait_for_daemon S (suc rounds) deadline path in
      elim (Bool-cases (answering S path t)) [
        | inl a ↦ ap (λ p. p.0) (up S path next deadline t early a)
        | inr a ↦
            let u = probed S path t in
            let x = probed-later S law path t in
            let y = law.slept poll_ms u in
            let z = prompt t in
            let before : S.now t < from = elim (dec_lt (S.now t) from) [
              | yes b ↦ b
              | no b ↦ let up_now = up_from t (omega (arith, b)) in cc
            ] in
            ap (λ p. p.0) (waits S path next deadline t early a)
            ∙ comes_up rounds (sleeps poll_ms ∷ u) (omega arith) (omega arith)
      ]

module _ (S : System) (law : IsClock S) (self : Paths) (t : Trace) (program : Text) where
  awaited :
      (from round : ℕ)
      → IsUpFrom S (socket self) from
      → IsPrompt S (socket self) round
      → from + round ≤ S.now (launched S self program t) + daemon_start_timeout
      → (await_daemon S self (launched S self program t)).0 ≡ ok tt
  unfolding await_daemon clock
  awaited from round up_from prompt in_time =
      let v = launched S self program t in
      comes_up S law (socket self) from round (S.now v + daemon_start_timeout) up_from prompt
        in_time 150 v (omega arith) (omega arith)

  started :
      (from round : ℕ)
      → IsUpFrom S (socket self) from
      → IsPrompt S (socket self) round
      → from + round ≤ S.now (launched S self program t) + daemon_start_timeout
      → S.executable (probed S (socket self) t) ≡ ok program
      → S.spawned (probed S (socket self) t) program (daemon_args self) ≡ ok tt
      → (start_daemon S self (probed S (socket self) t)).0 ≡ ok tt
  unfolding start_daemon spawned
  started from round up_from prompt in_time exe spawns_it =
      let u = probed S (socket self) t in
      let v = launched S self program t in
      let next = λ (_ : Unit {0}). await_daemon S self in
      let a = bind-ok (current_exe S) (spawned S self) u u program (exe-at S u (ok program) exe) in
      let b =
        bind-ok (spawn S program (daemon_args self)) next u v tt
          (spawn-at S program (daemon_args self) u (ok tt) spawns_it) in
      rw a (rw b (awaited from round up_from prompt in_time))

  -- A daemon that can be started, and that answers from some time on, is one that `ensure_daemon`
  -- finds: it succeeds, if one more round of questions after that time is over within the thirty
  -- seconds.
  pub ensure_daemon-live :
      (from round : ℕ)
      → IsUpFrom S (socket self) from
      → IsPrompt S (socket self) round
      → from + round ≤ S.now (launched S self program t) + daemon_start_timeout
      → S.executable (probed S (socket self) t) ≡ ok program
      → S.spawned (probed S (socket self) t) program (daemon_args self) ≡ ok tt
      → (ensure_daemon S self t).0 ≡ ok tt
  unfolding ensure_daemon
  ensure_daemon-live from round up_from prompt in_time exe spawns_it =
      let u = probed S (socket self) t in
      rw
        (bind-ok (daemon_is_running S (socket self)) (unless_running S self) t u
          (answering S (socket self) t) (daemon_is_running_lem S (socket self) t))
        (elim (Bool-cases (answering S (socket self) t)) [
          | inl yes_ ↦ rw yes_ refl
          | inr no_ ↦ rw no_ (started from round up_from prompt in_time exe spawns_it)
        ])
