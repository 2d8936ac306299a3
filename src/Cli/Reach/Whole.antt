-- ===== src/Cli/Reach/Whole.antt =====
-- `dispatch` and `run` of src/cli.rs: what the whole of a command reaches.
use agent2agent.Cli.Session.{ensure_daemon}
use agent2agent.Cli.Run.{run_in_session, run_command}
use agent2agent.Base.{
  ℕ, ◌≡◌, refl, inl, inr, Bool, true, false, Option, List, [], ◌∷◌, Text, nat_eq, text_eq,
}
use agent2agent.Cli.Command.{Cli, Command, needs_daemon}
use agent2agent.Cli.Reach.{ReadsStdin, Reaches}
use agent2agent.Cli.Reach.Steps.{
  run_mode-Makes, run_status-Makes, run_recv-Makes, deliver_message-Makes, run_bye-Makes,
  run_send-Makes,
}
use agent2agent.Cli.Reach.Files.{run_invite-Makes, run_join-Makes, run_peer-Makes, run_id-Makes}
use agent2agent.Cli.Reach.Starts.{ensure_daemon-Makes, end_session-Makes}
use agent2agent.Cli.Run.{perform, dispatch}
use agent2agent.Daemon.Process.{run_daemon}
use agent2agent.Daemon.Process.Makes.{run_daemon-Makes}
use agent2agent.Config.Iroh.{Iroh}
use agent2agent.Config.Paths.{Paths}
use agent2agent.Pairing.Base64.{Base64}
use agent2agent.System.{return, cond_m, System}
use agent2agent.System.Makes.{return-Makes, Makes, calls_make, bind-Makes, lift-Makes}

nil-ReadsStdin :
    (to : Option Text) (confirm : Bool) (parts : List Text)
    → parts ≡ []
    → ReadsStdin (Command.send to confirm parts)
nil-ReadsStdin to confirm [] e = tt
nil-ReadsStdin to confirm (part ∷ parts) e = cc

module _ (I : Iroh) (B : Base64) (S : System) (rounds : ℕ) (self : Paths) where
  perform-Makes :
      (command : Command) → Makes (Reaches self command) (perform I B S rounds self command)
  unfolding perform
  perform-Makes Command.daemon =
      let started : Makes (Reaches self Command.daemon) (run_daemon S self) =
        run_daemon-Makes S self {P = Reaches self Command.daemon} (λ r t. refl) (inl refl)
          (inr (inr refl)) (inr (inr (refl, tt))) (inr (inl (inr (inr (refl, tt)), refl)))
          (inl (inr (inr (refl, tt)))) (inr (refl, tt)) tt (λ s. inr (inr (refl, tt)))
          (inl (inr (inr (refl, tt)), refl)) (refl, tt) (inr (inr (refl, refl, tt)))
          (inr (refl, tt)) (refl, tt) in
      search calls_make
  perform-Makes (Command.id json) =
      run_id-Makes S self {P = Reaches self (Command.id json)} (λ r t. refl) (λ s. tt) (λ s. tt)
        (inr (inr refl)) (inl (inr (inr (refl, tt)))) (inr (inr (refl, tt)))
        (inr (inl (inr (inr (refl, tt)), refl))) tt (λ s. inr (inr (refl, tt)))
        (inl (inr (inr (refl, tt)), refl)) json
  perform-Makes (Command.peer action) =
      run_peer-Makes S self {P = Reaches self (Command.peer action)} (λ r t. refl) (λ s. tt)
        (λ s. tt) (inl (inr (inl (refl, tt)))) (inr (inl (refl, tt))) (λ s. inr (inl (refl, tt)))
        (inl (inr (inl (refl, tt)), refl)) I action
  perform-Makes (Command.invite name greeting ttl) =
      run_invite-Makes S self {P = Reaches self (Command.invite name greeting ttl)} (λ r t. refl)
        (λ s. tt) (λ s. tt) (inl (inl (refl, tt))) (inl (refl, tt)) (λ s. inl (refl, tt)) name
        greeting ttl
  perform-Makes (Command.join code name greeting) =
      run_join-Makes S self {P = Reaches self (Command.join code name greeting)} (λ r t. refl)
        (λ s. tt) (λ s. tt) (inl (inl (refl, tt))) (inl (refl, tt)) (λ s. inl (refl, tt)) code name
        greeting
  perform-Makes (Command.mode set) =
      run_mode-Makes S self {P = Reaches self (Command.mode set)} (λ r t. refl) (λ s. tt) (λ s. tt)
        set
  perform-Makes (Command.send to confirm parts) =
      run_send-Makes S self {P = Reaches self (Command.send to confirm parts)} (λ r t. refl)
        (λ s. tt) (λ s. tt) (λ s. tt) rounds to confirm parts
        (λ e. nil-ReadsStdin to confirm parts e)
  perform-Makes (Command.hello to parts) =
      deliver_message-Makes S self {P = Reaches self (Command.hello to parts)} (λ r t. refl)
        (λ s. tt) (λ s. tt) (λ s. tt) rounds to _ _ true
  perform-Makes (Command.bye to parts) =
      run_bye-Makes S self {P = Reaches self (Command.bye to parts)} (λ r t. refl) (λ s. tt)
        (λ s. tt) (λ s. tt) rounds to parts
        (end_session-Makes S self {P = Reaches self (Command.bye to parts)} (λ r t. refl) (inl refl)
          (λ ms. tt) (λ s. tt) (inr (inl refl)) (λ n. inl (refl, n, tt)))
  perform-Makes (Command.recv from wait json) =
      run_recv-Makes S self {P = Reaches self (Command.recv from wait json)} (λ r t. refl) (λ s. tt)
        (λ s. tt) from wait json
  perform-Makes (Command.status json) =
      run_status-Makes S self {P = Reaches self (Command.status json)} (λ r t. refl) (λ s. tt)
        (λ s. tt) json
  perform-Makes (Command.whoami name) = lift-Makes _
  perform-Makes (Command.sessions prune) = lift-Makes _

  started-Makes :
      (command : Command) (needed : Bool)
      → needs_daemon command ≡ needed
      → Makes (Reaches self command) (cond_m needed (ensure_daemon S self) (return tt))
  started-Makes command true is =
      ensure_daemon-Makes S self {P = Reaches self command} (λ r t. refl) (inl refl) (λ ms. tt)
        (λ program. (refl, is))
  started-Makes command false is = return-Makes tt

  -- Whatever the system answers, a command talks to no daemon but that of its own conversation, and
  -- starts no other, if it is one that needs a daemon. It writes no file but the one that it is
  -- about: the names for `invite` and `join`, the peer list for `peer`, the key for `id` and
  -- `daemon`. And it deletes nothing, but `bye` the directory of the conversation, where it is a
  -- session, and `daemon` the file of its own socket. For `daemon` this is about what is done before
  -- and after serving, which is one call here: what is written while it serves is not covered.
  pub dispatch-Reaches :
      (command : Command) → Makes (Reaches self command) (dispatch I B S rounds self command)
  unfolding dispatch
  dispatch-Reaches command = bind-Makes _ _ (lift-Makes _) (λ _.
      bind-Makes _ _ (started-Makes command (needs_daemon command) refl)
        (λ _. perform-Makes command))

-- The commands that are about one conversation: all but `whoami` and `sessions`.
abbrev pub IsAboutSession : Command → Type 0
IsAboutSession (Command.whoami _) = ⊥
IsAboutSession (Command.sessions _) = ⊥
IsAboutSession _ = Unit {0}

module _ (I : Iroh) (B : Base64) (S : System) (rounds : ℕ) where
  pub run_command-about :
      (cli : Cli) (dir : Text) (command : Command)
      → IsAboutSession command
      → run_command I B S rounds cli dir command ≡ run_in_session I B S rounds cli
  unfolding run_command
  run_command-about cli dir (Command.whoami name) about = elim about [ ]
  run_command-about cli dir (Command.sessions prune) about = elim about [ ]
  run_command-about cli dir _ about = refl
