-- ===== src/Cli/Start.antt =====
-- `ensure_daemon` of src/cli.rs: when it succeeds, how it ends, and that it does.
use agent2agent.System.Bind.{bind-ok}
pub mod Whole
pub mod Live
use native.Mathlib.Decide.{dec_lt}
use agent2agent.Base.{
  ℕ, zero, suc, ◌+◌, ◌-◌, ◌*◌, ◌/◌, ◌%◌, ◌^◌, ◌≤◌, ◌<◌, ◌≡◌, refl, sym, ap, ◌∙◌, ◌≢◌, ◌↔◌, ◌⊎◌, inl,
  inr, Bool, true, false, not, ◌&&◌, ◌||◌, Option, none, some, List, [], ◌∷◌, ◌++◌, map, append-nil,
  append_assoc, arith, ltb, leb, if◌then◌else◌, Text, text, ◌==◌, nat_eq, text_eq, Bool-cases,
  Option-cases, ==_iff, length, get_elem?, take, drop, all, All, All-append, All-map, all→All,
  All→all, length-append, length-map, take-inside, drop-inside, take-beyond, drop-beyond, take_all,
  take-append-drop, length-take-le, append-cancel_left, take-append, drop-append, Result, ok, err,
  ◌>>=◌, ◌>>◌, bail_if, context, ok_or, is_ok, or_zero, within, Context, Error, >>=-eq-ok,
  ok_or-eq-ok, context-eq-ok, bail_if-eq-ok, Result-cases, creating, reading, parsing, writing,
  setting_mode, removing, serializing_state, locating_executable, reading_current_dir,
  reading_stdin, starting_daemon, rounds_over, panics, no_session, no_name_set, empty_message,
  unexpected_reply, daemon_did_not_start, io_failed, bad_toml, bad_json, unknown_peer,
}
use agent2agent.Cli.Session.{wait_for_daemon, start_round, once_asked, poll_ms}
use agent2agent.Ipc.{Request}
use agent2agent.Ipc.Exchange
use agent2agent.Ipc.Exchange.{is_answer}
use agent2agent.System.{Call, M, System, Trace, requests, checks, sleeps, daemon_is_running, clock}

-- Whether the daemon answers when it is asked after the calls of `t`, and the calls after that.
abbrev pub answering : System → Text → Trace → Bool
answering S path t =
    S.exists t path
    && is_answer
        (Exchange.request S.json (S.wire (checks path ∷ t) path Request.status) Request.status)

abbrev pub probed : System → Text → Trace → Trace
probed S path t =
    if S.exists t path then requests path Request.status 2000 ∷ checks path ∷ t else checks path ∷ t

pub daemon_is_running_lem :
    (S : System) (path : Text) (t : Trace)
    → daemon_is_running S path t ≡ (ok (answering S path t), probed S path t)
unfolding daemon_is_running
daemon_is_running_lem S path t = elim (Bool-cases (S.exists t path)) [
  | inl e ↦ rw e refl
  | inr e ↦ rw e refl
]

module _ (S : System) (path : Text) (next : M (Unit {0})) (deadline : ℕ) (t : Trace) where
  pub late : deadline ≤ S.now t → start_round S next deadline path t ≡ (err daemon_did_not_start, t)
  unfolding start_round clock once_asked
  late h = rw (let e : ltb (S.now t) deadline ≡ false = ground arith in e) refl

  pub up :
      S.now t < deadline
      → answering S path t ≡ true
      → start_round S next deadline path t ≡ (ok tt, probed S path t)
  unfolding start_round clock once_asked
  up h a = rw (let e : ltb (S.now t) deadline ≡ true = ground arith in e) (
      bind-ok (daemon_is_running S path) (once_asked S next) t (probed S path t)
        (answering S path t) (daemon_is_running_lem S path t)
      ∙ rw a refl)

  pub waits :
      S.now t < deadline
      → answering S path t ≡ false
      → start_round S next deadline path t ≡ next (sleeps poll_ms ∷ probed S path t)
  unfolding start_round clock once_asked
  waits h a = rw (let e : ltb (S.now t) deadline ≡ true = ground arith in e) (
      bind-ok (daemon_is_running S path) (once_asked S next) t (probed S path t)
        (answering S path t) (daemon_is_running_lem S path t)
      ∙ rw a refl)

-- What is relied on of the clock: it does not go back, and a sleep lasts as long as it is told to.
pub record IsClock (S : System) : Type 0 where
  pub later : (c : Call) (t : Trace) → S.now t ≤ S.now (c ∷ t)
  pub slept : (ms : ℕ) (t : Trace) → S.now t + ms ≤ S.now (sleeps ms ∷ t)

probed-later :
    (S : System) → IsClock S → (path : Text) (t : Trace) → S.now t ≤ S.now (probed S path t)
probed-later S clock path t = elim (Bool-cases (S.exists t path)) [
  | inl e ↦
      let a = clock.later (checks path) t in
      let b = clock.later (requests path Request.status 2000) (checks path ∷ t) in
      rw e (omega arith)
  | inr e ↦ rw e (clock.later (checks path) t)
]

-- How waiting for a daemon ends: it answered the last question, or the deadline has passed.
pub data Ended (S : System) (path : Text) (deadline : ℕ) : Result (Unit {0}) × Trace → Type 0 where
  came_up : (t : Trace) → answering S path t ≡ true → Ended S path deadline (ok tt, probed S path t)
  too_late : (t : Trace) → deadline ≤ S.now t → Ended S path deadline (err daemon_did_not_start, t)

module _ (S : System) (clock : IsClock S) (path : Text) (deadline : ℕ) where
  pub round-Ended :
      (next : M (Unit {0})) (t : Trace)
      → (S.now t < deadline → Ended S path deadline (next (sleeps poll_ms ∷ probed S path t)))
      → Ended S path deadline (start_round S next deadline path t)
  round-Ended next t after = elim (dec_lt (S.now t) deadline) [
    | no late_ ↦
        rw (late S path next deadline t (omega (arith, late_))) (too_late t (omega (arith, late_)))
    | yes early ↦ elim (Bool-cases (answering S path t)) [
      | inl a ↦ rw (up S path next deadline t early a) (came_up t a)
      | inr a ↦ rw (waits S path next deadline t early a) (after early)
    ]
  ]

  pub wait-Ended :
      (rounds : ℕ) (t : Trace)
      → deadline ≤ S.now t + poll_ms * rounds
      → Ended S path deadline (wait_for_daemon S (suc rounds) deadline path t)
  unfolding wait_for_daemon
  wait-Ended zero t enough = round-Ended _ t (λ early. absurd (omega (arith, enough)))
  wait-Ended (suc rounds) t enough =
      let u = probed S path t in
      let a = probed-later S clock path t in
      let b = clock.slept poll_ms u in
      round-Ended _ t (λ early. wait-Ended rounds (sleeps poll_ms ∷ u) (omega arith))
