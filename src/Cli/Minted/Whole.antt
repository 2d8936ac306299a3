-- ===== src/Cli/Minted/Whole.antt =====
-- `run` of src/cli.rs for a conversation that it makes itself.
use agent2agent.Cli.Reach.Whole.{run_command-about, IsAboutSession}
use agent2agent.Cli.Run.{in_chosen, run_found}
use agent2agent.System.{return}
use agent2agent.Config.Name.{validate_session_id}
use agent2agent.Cli.Session.{mint_at}
use agent2agent.Cli.Command.{chosen_paths}
use agent2agent.System.{lift}
use agent2agent.Base.{
  ℕ, ◌≡◌, refl, ap, true, Option, none, some, Text, nat_eq, text_eq, Result, ok, err, Error,
  >>=-eq-ok,
}
use agent2agent.Cli.Command.{Cli, Command, is_opening, paths, base}
use agent2agent.Cli.Minted.{Gone, end_session-Gone}
use agent2agent.Cli.Run.{run, run_in_session, session_for, dispatch, settled}
use agent2agent.Cli.Session.{mint, minted_at, new_session, end_session}
use agent2agent.Config.Iroh.{Iroh}
use agent2agent.Config.Paths.{in_session, Paths, for_session}
use agent2agent.Config.Store.{new_session_id}
use agent2agent.Pairing.Base64.{Base64}
use agent2agent.System.Bind.{bind-ok, bind-eq-ok}
use agent2agent.System.{System, Trace}

for_session-session :
    (dir id : Text) (self : Paths) → for_session dir id ≡ ok self → self.session ≡ some id
unfolding for_session
for_session-session dir id self h = let (_, _, made) = >>=-eq-ok (validate_session_id id) _ h in cc

module _ (S : System) where
  mint_at-session :
      (dir : Text) (t u : Trace) (self : Paths)
      → mint_at S dir t ≡ (ok self, u)
      → (id : Text) × (self.session ≡ some id)
  unfolding mint_at
  mint_at-session dir t u self h =
      let next = λ (id : Text). lift (for_session dir id) in
      let (id, _, made) = bind-eq-ok (new_session_id S) next t u self h in
      (id, for_session-session dir id self (ap (λ p. p.0) made))

  mint-session :
      (cli : Cli) (t u : Trace) (self : Paths)
      → mint S cli t ≡ (ok self, u)
      → (id : Text) × (self.session ≡ some id)
  unfolding mint
  mint-session cli t u self h =
      let (dir, _, made) = bind-eq-ok (lift (base S.environment cli)) (mint_at S) t u self h in
      mint_at-session dir t u self made

  -- Where no session is named, there is no `--home`, and the new session has an id.
  new_session-session :
      (cli : Cli) (home session : Option Text) (t u : Trace) (self : Paths)
      → chosen_paths S.environment home session ≡ ok none
      → minted_at S home session cli t ≡ (ok self, u)
      → (id : Text) × (self.session ≡ some id)
  unfolding minted_at chosen_paths in_session
  new_session-session cli none session t u self h made = mint-session cli t u self made
  new_session-session cli (some dir) none t u self h made = cc
  new_session-session cli (some dir) (some given) t u self h made = mint-session cli t u self made

opening-IsAboutSession : (command : Command) → is_opening command ≡ true → IsAboutSession command
unfolding is_opening
opening-IsAboutSession (Command.whoami name) h = cc
opening-IsAboutSession (Command.sessions prune) h = cc
opening-IsAboutSession _ h = tt

module _ (I : Iroh) (B : Base64) (S : System) (rounds : ℕ) where
  ends :
      (cli : Cli) (self : Paths) (u v : Trace) (e : Error) (id : Text)
      → self.session ≡ some id
      → dispatch I B S rounds self cli.command u ≡ (err e, v)
      → let r = in_chosen I B S rounds cli (self, true) u in (r.0 ≡ err e) × Gone S self r.1
  unfolding in_chosen
  ends cli self u v e id is fails =
      let r : in_chosen I B S rounds cli (self, true) u ≡ (err e, (end_session S self v).1) =
        ap (λ (p : Result ℕ × Trace). settled true (end_session S self) p.0 p.1) fails in
      rw r (refl, end_session-Gone S self id v is)

  chosen :
      (cli : Cli) (self : Paths) (t u : Trace)
      → is_opening cli.command ≡ true
      → new_session S cli t ≡ (ok self, u)
      → session_for I B S cli none t ≡ (ok (self, true), u)
  unfolding session_for
  chosen cli self t u opens made =
      rw opens (bind-ok (new_session S cli) (λ (p : Paths). return (p, true)) t u self made)

  -- A conversation that `invite` or `join` opens for itself and that then fails leaves nothing
  -- behind: the command ends with its own error, and by then the directory of the new session has
  -- been deleted, unless it was not there or could not be.
  pub run-Gone :
      (cli : Cli) (dir : Text) (self : Paths) (t u v : Trace) (e : Error)
      → base S.environment cli ≡ ok dir
      → paths S.environment cli ≡ ok none
      → is_opening cli.command ≡ true
      → new_session S cli t ≡ (ok self, u)
      → dispatch I B S rounds self cli.command u ≡ (err e, v)
      → ((run I B S rounds cli t).0 ≡ err e) × Gone S self (run I B S rounds cli t).1
  unfolding run run_in_session run_found new_session paths
  run-Gone cli dir self t u v e at no_session_ opens made fails =
      let (id, is) = new_session-session S cli cli.home cli.session t u self no_session_ made in
      let about = opening-IsAboutSession cli.command opens in
      let step : run_in_session I B S rounds cli t ≡ in_chosen I B S rounds cli (self, true) u =
        rw no_session_ (
          bind-ok (session_for I B S cli none) (in_chosen I B S rounds cli) t u (self, true)
            (chosen cli self t u opens made)) in
      rw at (
        rw (run_command-about I B S rounds cli dir cli.command about)
          (rw step (ends cli self u v e id is fails)))
