-- ===== src/Cli/Mistyped.antt =====
-- `join` of src/cli.rs with a code that is none: the command costs nothing.
use agent2agent.System.Bind.{Fails, bind-Fails}
use agent2agent.Cli.Command.{base}
use agent2agent.Config.Paths.{Paths}
use agent2agent.Base.{
  ℕ, ◌≡◌, refl, ap, ◌∙◌, inl, inr, Bool, Option, none, some, Text, nat_eq, text_eq, Bool-cases, All,
  Result, ok, err, is_ok, Error,
}
use agent2agent.Cli.Command.{Cli, Command, paths}
use agent2agent.Cli.Reach.Starts.{end_session-Makes}
use agent2agent.Cli.Reach.Whole.{run_command-about, IsAboutSession}
use agent2agent.Cli.Run.{
  run, run_found, run_in_session, run_command, session_for, in_chosen, dispatch, check_join,
  settled, cleared_up,
}
use agent2agent.Cli.Session.{mint, mint_at, minted_at, new_session, end_session}
use agent2agent.Config.Iroh.{Iroh}
use agent2agent.Config.Store.Makes.{store_makes}
use agent2agent.Pairing.Base64.{Base64}
use agent2agent.Pairing.Code.{decode}
use agent2agent.System.{
  System, Trace, Call, M, lift, spawns, serves, binds, creates, writes, restricts,
}
use agent2agent.System.Makes.{Makes, calls_make, bind-Makes, lift-Makes}

-- The calls that start no program, serve no conversation and write no file.
abbrev pub StartsNothing : Call → Type 0
StartsNothing (spawns program args) = ⊥
StartsNothing (serves dir) = ⊥
StartsNothing (binds path) = ⊥
StartsNothing (creates path) = ⊥
StartsNothing (writes path contents) = ⊥
StartsNothing (restricts path mode) = ⊥
StartsNothing _ = Unit {0}

module _ (P : Call → Type 0) (minted : Bool) (clear : M (Unit {0})) (cleared : Makes P clear) where
  settled-made : (r : Result ℕ) (t : Trace) → All P t → All P (settled minted clear r t).1
  settled-made (ok code) t h = h
  settled-made (err e) t h = elim (Bool-cases minted) [
    | inl yes_ ↦ rw yes_ (cleared.made t h)
    | inr no_ ↦ rw no_ h
  ]

  cleared_up-Makes : (m : M ℕ) → Makes P m → Makes P (cleared_up minted clear m)
  cleared_up-Makes m h = record { made = λ t k. settled-made (m t).0 (m t).1 (h.made t k) }

module _ (S : System) where
  mint_at-Makes : (dir : Text) → Makes StartsNothing (mint_at S dir)
  unfolding mint_at
  mint_at-Makes dir = search (calls_make, store_makes, tt) depth 12

  mint-Makes : (cli : Cli) → Makes StartsNothing (mint S cli)
  unfolding mint
  mint-Makes cli = search (calls_make, mint_at-Makes) depth 12

  minted_at-Makes :
      (home session : Option Text) (cli : Cli) → Makes StartsNothing (minted_at S home session cli)
  unfolding minted_at
  minted_at-Makes (some dir) none cli = search calls_make
  minted_at-Makes (some dir) (some given) cli = mint-Makes cli
  minted_at-Makes none session cli = mint-Makes cli

  new_session-Makes : (cli : Cli) → Makes StartsNothing (new_session S cli)
  unfolding new_session
  new_session-Makes cli = minted_at-Makes cli.home cli.session cli

module _ (I : Iroh) (B : Base64) (S : System) (rounds : ℕ) where
  session_for-Makes :
      (cli : Cli) (found : Option Paths) → Makes StartsNothing (session_for I B S cli found)
  unfolding session_for
  session_for-Makes cli (some self) = search calls_make
  session_for-Makes cli none = search (calls_make, new_session-Makes) depth 12

  refused :
      (self : Paths) (code : Text) (name : Option Text) (greeting : Text) (e : Error) (t : Trace)
      → decode I B code ≡ err e
      → dispatch I B S rounds self (Command.join code name greeting) t ≡ (err e, t)
  unfolding dispatch check_join
  refused self code name greeting e t bad = rw bad refl

  module _ (cli : Cli) (code : Text) (name : Option Text) (greeting : Text) (e : Error)
      (is : cli.command ≡ Command.join code name greeting) (bad : decode I B code ≡ err e) where
    stopped : (self : Paths) (t : Trace) → dispatch I B S rounds self cli.command t ≡ (err e, t)
    stopped self t =
        ap (λ (c : Command). dispatch I B S rounds self c t) is
        ∙ refused self code name greeting e t bad

    in_chosen-Makes : (p : Paths × Bool) → Makes StartsNothing (in_chosen I B S rounds cli p)
    unfolding in_chosen
    in_chosen-Makes (self, minted) =
        let ended =
          end_session-Makes S self {P = StartsNothing} (λ r t. tt) tt (λ ms. tt) (λ s. tt) tt
            (λ n. tt) in
        cleared_up-Makes StartsNothing minted (end_session S self) ended
          (dispatch I B S rounds self cli.command) (record { made = λ t k. rw (stopped self t) k })

    in_chosen-Fails : (p : Paths × Bool) → Fails (in_chosen I B S rounds cli p)
    unfolding in_chosen
    in_chosen-Fails (self, minted) t =
        ap (λ (r : Result ℕ × Trace). is_ok (settled minted (end_session S self) r.0 r.1).0)
          (stopped self t)

    found-Makes : (found : Option Paths) → Makes StartsNothing (run_found I B S rounds cli found)
    unfolding run_found
    found-Makes found = bind-Makes _ _ (session_for-Makes cli found) (λ p. in_chosen-Makes p)

    found-Fails : (found : Option Paths) → Fails (run_found I B S rounds cli found)
    unfolding run_found
    found-Fails found =
        bind-Fails (session_for I B S cli found) (in_chosen I B S rounds cli) in_chosen-Fails

    in_session-Makes : Makes StartsNothing (run_in_session I B S rounds cli)
    unfolding run_in_session
    in_session-Makes = bind-Makes _ _ (lift-Makes _) (λ found. found-Makes found)

    in_session-Fails : Fails (run_in_session I B S rounds cli)
    unfolding run_in_session
    in_session-Fails =
        bind-Fails (lift (paths S.environment cli)) (run_found I B S rounds cli) found-Fails

    about : IsAboutSession cli.command
    about = rw is tt

    -- A `join` whose code does not decode starts no daemon and writes no file, whichever session it
    -- was for, and it fails.
    pub run-StartsNothing :
        Makes StartsNothing (run I B S rounds cli) × Fails (run I B S rounds cli)
    unfolding run
    run-StartsNothing =
        let act = λ (dir : Text). run_command I B S rounds cli dir cli.command in
        (
          bind-Makes (lift (base S.environment cli)) act (lift-Makes _) (λ dir.
              rw (run_command-about I B S rounds cli dir cli.command about) in_session-Makes),
          bind-Fails (lift (base S.environment cli)) act (λ dir.
              rw (run_command-about I B S rounds cli dir cli.command about) in_session-Fails),
        )
