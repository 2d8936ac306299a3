-- ===== src/Cli/Minted.antt =====
-- `end_session` and `run` of src/cli.rs: a conversation that never started leaves nothing behind.
pub mod Whole
use agent2agent.Ipc.{Request}
use agent2agent.Cli.Session.{end_asked}
use agent2agent.Base.{
  ℕ, zero, suc, ◌+◌, ◌-◌, ◌*◌, ◌/◌, ◌%◌, ◌^◌, ◌≤◌, ◌<◌, ◌≡◌, refl, sym, ap, ◌∙◌, ◌≢◌, ◌↔◌, ◌⊎◌, inl,
  inr, Bool, true, false, not, ◌&&◌, ◌||◌, Option, none, some, List, [], ◌∷◌, ◌++◌, map, append-nil,
  append_assoc, arith, ltb, leb, if◌then◌else◌, Text, text, ◌==◌, nat_eq, text_eq, Bool-cases,
  Option-cases, ==_iff, length, get_elem?, take, drop, all, All, All-append, All-map, all→All,
  All→all, length-append, length-map, take-inside, drop-inside, take-beyond, drop-beyond, take_all,
  take-append-drop, length-take-le, append-cancel_left, take-append, drop-append, Result, ok, err,
  ◌>>=◌, ◌>>◌, bail_if, context, ok_or, is_ok, or_zero, within, Context, Error, >>=-eq-ok,
  ok_or-eq-ok, context-eq-ok, bail_if-eq-ok, Result-cases, creating, reading, parsing, writing,
  setting_mode, removing, serializing_state, locating_executable, reading_current_dir,
  reading_stdin, starting_daemon, rounds_over, panics, no_session, no_name_set, empty_message,
  unexpected_reply, daemon_did_not_start, io_failed, bad_toml, bad_json, unknown_peer,
}
use agent2agent.Cli.Command.{Cli, is_opening, paths, base}
use agent2agent.Cli.Session.{
  end_round, wait_for_end, remove_session, end_session, mint, minted_at, new_session,
}
use agent2agent.Cli.Start.{answering, probed, daemon_is_running_lem}
use agent2agent.Config.Paths.{Paths, socket}
use agent2agent.Config.Store.{remove_state}
use agent2agent.System.Bind.{bind-ok, bind-err, bind-eq-ok}
use agent2agent.System.{
  requests, ask_daemon, call, daemon_is_running, remove_dir, path_exists, System, Trace, M, checks,
  removes, eprints, sleeps,
}

-- The directory of a session is gone after these calls, or it could not be deleted.
pub data Gone (S : System) (self : Paths) : Trace → Type 0 where
  was_not_there :
      (u : Trace)
      → S.exists u self.dir ≡ false
      → Gone S self (eprints (text "conversation ended") ∷ checks self.dir ∷ u)
  deleted :
      (u : Trace)
      → S.removed (checks self.dir ∷ u) self.dir ≡ ok tt
      → Gone S self (eprints (text "conversation ended") ∷ removes self.dir ∷ checks self.dir ∷ u)
  failed :
      (u : Trace) (e : Error)
      → S.removed (checks self.dir ∷ u) self.dir ≡ err e
      → Gone S self (removes self.dir ∷ checks self.dir ∷ u)

module _ (S : System) (self : Paths) where
  round_ends :
      (next : M (Unit {0})) (t : Trace)
      → ((v : Trace) → (u : Trace) × (next v ≡ (ok tt, u)))
      → (u : Trace) × (end_round S next (socket self) t ≡ (ok tt, u))
  unfolding end_round end_asked
  round_ends next t after =
      let u = probed S (socket self) t in
      let asked =
        bind-ok (daemon_is_running S (socket self)) (end_asked S next) t u
          (answering S (socket self) t) (daemon_is_running_lem S (socket self) t) in
      elim (Bool-cases (answering S (socket self) t)) [
        | inl a ↦ let (v, done) = after (sleeps 100 ∷ u) in (v, asked ∙ rw a done)
        | inr a ↦ (u, asked ∙ rw a refl)
      ]

  wait_ends :
      (rounds : ℕ) (t : Trace) → (u : Trace) × (wait_for_end S rounds (socket self) t ≡ (ok tt, u))
  unfolding wait_for_end
  wait_ends zero t = (t, refl)
  wait_ends (suc rounds) t = round_ends _ t (wait_ends rounds)

  module _ (t : Trace) where
    pub state_missing :
        S.exists t self.dir ≡ false → remove_state S self t ≡ (ok tt, checks self.dir ∷ t)
    unfolding remove_state path_exists
    state_missing e = rw e refl

    pub state_removed :
        (r : Result (Unit {0}))
        → S.exists t self.dir ≡ true
        → S.removed (checks self.dir ∷ t) self.dir ≡ r
        → remove_state S self t
          ≡ (context (removing self.dir) r, removes self.dir ∷ checks self.dir ∷ t)
    unfolding remove_state path_exists remove_dir
    state_removed r e k = rw (e, k) refl

    removed-Gone : (id : Text) → Gone S self (remove_session S (some id) self t).1
    unfolding remove_session
    removed-Gone id =
        let next = λ (_ : Unit {0}). call (eprints (text "conversation ended")) in
        elim (Bool-cases (S.exists t self.dir)) [
          | inr e ↦
              rw (bind-ok (remove_state S self) next t (checks self.dir ∷ t) tt (state_missing e))
                (was_not_there t e)
          | inl e ↦
              let v = removes self.dir ∷ checks self.dir ∷ t in
              elim (Result-cases (S.removed (checks self.dir ∷ t) self.dir)) [
                | inl good ↦
                    rw (bind-ok (remove_state S self) next t v tt (state_removed (ok tt) e good.1))
                      (deleted t good.1)
                | inr bad ↦
                    rw
                      (bind-err (remove_state S self) next t v (within (removing self.dir) bad.0)
                        (state_removed (err bad.0) e bad.1))
                      (failed t bad.0 bad.1)
              ]
        ]

  any-Gone :
      (session : Option Text) (id : Text) (t : Trace)
      → session ≡ some id
      → Gone S self (remove_session S session self t).1
  any-Gone none id t is = cc
  any-Gone (some other) id t is = removed-Gone t other

  pub end_session-Gone :
      (id : Text) (t : Trace) → self.session ≡ some id → Gone S self (end_session S self t).1
  unfolding end_session ask_daemon
  end_session-Gone id t is =
      let v = requests (socket self) Request.shutdown 10000 ∷ t in
      let (u, waited) = wait_ends 20 v in
      let next = λ (_ : Unit {0}). remove_session S self.session self in
      rw (bind-ok (wait_for_end S 20 (socket self)) next v u tt waited)
        (any-Gone self.session id u is)
