-- ===== src/Cli/Prune.antt =====
-- `run_sessions` of src/cli.rs: which sessions a listing deletes.
use agent2agent.Base.{
  ℕ, ◌≡◌, refl, inl, inr, Bool, true, false, List, [], ◌∷◌, ◌++◌, Text, text, nat_eq, text_eq,
  Bool-cases, Result, ok, err, within, Error, Result-cases, removing,
}
use agent2agent.Cli.Dispatch.{success}
use agent2agent.Cli.Machine.{pruned, by_state, show_session, show_sessions}
use agent2agent.Cli.Minted.{state_missing, state_removed}
use agent2agent.Cli.Start.{answering, probed, daemon_is_running_lem}
use agent2agent.Config.Paths.{Paths, socket, for_session}
use agent2agent.Config.Store.{remove_state}
use agent2agent.System.Bind.{bind-ok, bind-err}
use agent2agent.System.{
  cond_m, System, Trace, ◌>>=◌, call, prints, checks, removes, daemon_is_running,
}

-- What one round of the loop has done, from the calls of `t` on.
pub data Shown (S : System) (prune : Bool) (name : Text) (self : Paths) (t : Trace)
    : Result (Unit {0}) × Trace → Type 0 where
  is_live :
      answering S (socket self) t ≡ true
      → Shown S prune name self t (ok tt, prints (name ++ text "  live") ∷ probed S (socket self) t)
  is_stopped :
      answering S (socket self) t ≡ false
      → prune ≡ false
      → Shown S prune name self t
          (ok tt, prints (name ++ text "  stopped") ∷ probed S (socket self) t)
  was_gone :
      answering S (socket self) t ≡ false
      → prune ≡ true
      → S.exists (probed S (socket self) t) self.dir ≡ false
      → Shown S prune name self t
          (ok tt, prints (name ++ text "  removed") ∷ checks self.dir ∷ probed S (socket self) t)
  was_deleted :
      answering S (socket self) t ≡ false
      → prune ≡ true
      → S.removed (checks self.dir ∷ probed S (socket self) t) self.dir ≡ ok tt
      → Shown S prune name self t (
        ok tt,
        prints (name ++ text "  removed")
            ∷ removes self.dir
            ∷ checks self.dir
            ∷ probed S (socket self) t,
      )
  is_stuck :
      (e : Error)
      → answering S (socket self) t ≡ false
      → prune ≡ true
      → S.removed (checks self.dir ∷ probed S (socket self) t) self.dir ≡ err e
      → Shown S prune name self t (
        err (within (removing self.dir) e),
        removes self.dir ∷ checks self.dir ∷ probed S (socket self) t,
      )

-- What the loop has done: it goes on after each session that it could show, and ends with the first
-- name that is no session id, or with the first directory that could not be deleted.
pub data Listed (S : System) (base : Text) (prune : Bool)
    : List Text → Trace → Result ℕ × Trace → Type 0 where
  over : {t : Trace} → Listed S base prune [] t (ok success, t)
  no_session_id :
      {t : Trace} (name : Text) (names : List Text) (e : Error)
      → for_session base name ≡ err e
      → Listed S base prune (name ∷ names) t (err e, t)
  stops :
      {t u : Trace} (name : Text) (names : List Text) (self : Paths) (e : Error)
      → for_session base name ≡ ok self
      → Shown S prune name self t (err e, u)
      → Listed S base prune (name ∷ names) t (err e, u)
  goes_on :
      {t u : Trace} (name : Text) (names : List Text) (self : Paths) {end_ : Result ℕ × Trace}
      → for_session base name ≡ ok self
      → Shown S prune name self t (ok tt, u)
      → Listed S base prune names u end_
      → Listed S base prune (name ∷ names) t end_

module _ (S : System) (prune : Bool) (name : Text) (self : Paths) (t : Trace) where
  pruned-Shown :
      answering S (socket self) t ≡ false
      → prune ≡ true
      → Shown S prune name self t (pruned S name self (probed S (socket self) t))
  unfolding pruned
  pruned-Shown no_answer on =
      let u = probed S (socket self) t in
      let next = λ (_ : Unit {0}). call (prints (name ++ text "  removed")) in
      elim (Bool-cases (S.exists u self.dir)) [
        | inr e ↦
            rw
              (bind-ok (remove_state S self) next u (checks self.dir ∷ u) tt
                (state_missing S self u e))
              (was_gone no_answer on e)
        | inl e ↦
            let v = removes self.dir ∷ checks self.dir ∷ u in
            elim (Result-cases (S.removed (checks self.dir ∷ u) self.dir)) [
              | inl good ↦
                  rw
                    (bind-ok (remove_state S self) next u v tt
                      (state_removed S self u (ok tt) e good.1))
                    (was_deleted no_answer on good.1)
              | inr bad ↦
                  rw
                    (bind-err (remove_state S self) next u v (within (removing self.dir) bad.0)
                      (state_removed S self u (err bad.0) e bad.1))
                    (is_stuck bad.0 no_answer on bad.1)
            ]
      ]

  unlit-Shown :
      (on : Bool)
      → prune ≡ on
      → answering S (socket self) t ≡ false
      → Shown S prune name self t (
          cond_m on
            (pruned S name self)
            (call (prints (name ++ text "  stopped")))
            (probed S (socket self) t))
  unlit-Shown true is no_answer = pruned-Shown no_answer is
  unlit-Shown false is no_answer = is_stopped no_answer is

  pub show_session-Shown : Shown S prune name self t (show_session S prune name self t)
  unfolding show_session by_state
  show_session-Shown =
      let u = probed S (socket self) t in
      rw
        (bind-ok (daemon_is_running S (socket self)) (by_state S prune name self) t u
          (answering S (socket self) t) (daemon_is_running_lem S (socket self) t))
        (elim (Bool-cases (answering S (socket self) t)) [
          | inl a ↦ rw a (is_live a)
          | inr a ↦ rw a (unlit-Shown prune refl a)
        ])

module _ (S : System) (base : Text) (prune : Bool) where
  one-Listed :
      (name : Text) (names : List Text) (self : Paths) (t : Trace) (r : Result (Unit {0}) × Trace)
      → for_session base name ≡ ok self
      → show_session S prune name self t ≡ r
      → Shown S prune name self t r
      → ((u : Trace) → Listed S base prune names u (show_sessions S base prune names u))
      → Listed S base prune
          (name ∷ names)
          t
          ((show_session S prune name self >>= λ _. show_sessions S base prune names) t)
  one-Listed name names self t (err e, u) is done shown rest =
      rw
        (bind-err (show_session S prune name self)
          (λ (_ : Unit {0}). show_sessions S base prune names) t u e done)
        (stops name names self e is shown)
  one-Listed name names self t (ok _, u) is done shown rest =
      rw
        (bind-ok (show_session S prune name self)
          (λ (_ : Unit {0}). show_sessions S base prune names) t u tt done)
        (goes_on name names self is shown (rest u))

  -- A listing takes the sessions in turn and shows each as it finds it. With `--prune` it deletes
  -- the directory of a session, and then only, after its daemon was asked and did not answer; a
  -- session whose daemon answers keeps its directory, and without `--prune` each does. The first
  -- name that is no session id, or the first directory that could not be deleted, ends the listing.
  pub show_sessions-Listed :
      (names : List Text) (t : Trace)
      → Listed S base prune names t (show_sessions S base prune names t)
  unfolding show_sessions
  show_sessions-Listed [] t = over
  show_sessions-Listed (name ∷ names) t = elim (Result-cases (for_session base name)) [
    | inr bad ↦ rw bad.1 (no_session_id name names bad.0 bad.1)
    | inl good ↦ rw good.1 (
        one-Listed name names good.0 t (show_session S prune name good.0 t) good.1 refl
          (show_session-Shown S prune name good.0 t) (λ u. show_sessions-Listed names u))
  ]
