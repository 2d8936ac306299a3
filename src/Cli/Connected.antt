-- ===== src/Cli/Connected.antt =====
-- `mode` of src/cli.rs beside the daemon of src/daemon.rs that it talks to.
use agent2agent.Base.{
  ℕ, ◌≡◌, refl, sym, ap, ◌∙◌, Option, none, some, ◌∷◌, Text, text, nat_eq, text_eq, Result, ok,
}
use agent2agent.Cli.Dispatch.{success, ipc_timeout, set_text, ask_for, mode_done, run_mode}
use agent2agent.Config.Iroh.{Iroh}
use agent2agent.Config.Mode.{Mode, as_str, parse_mode_lem}
use agent2agent.Config.Paths.{Paths, socket}
use agent2agent.Daemon.{State}
use agent2agent.Daemon.Deliver.{Codecs}
use agent2agent.Daemon.Handle.{Env, handle, set_or_report_mode}
use agent2agent.Daemon.Served.{ServerJson, IsLawful, over_socket, request-handle}
use agent2agent.Ipc.{Request, Response, answered, mode_is, respond, into_data}
use agent2agent.Ipc.Exchange.{request}
use agent2agent.Pairing.Base64.{Base64}
use agent2agent.System.{System, Trace, lift, ask_daemon, requests, prints, eprints}
use agent2agent.System.Bind.{bind-ok}

-- What is printed of a mode, the latest first.
abbrev pub printed : Mode → Trace → Trace
printed Mode.manual u = prints (text "manual") ∷ u
printed Mode.auto u =
    eprints (
      text
        "the agents will talk without asking, until this conversation ends or the daemon restarts")
    ∷ prints (text "auto")
    ∷ u

module _ (I : Iroh) (B : Base64) (C : Codecs) (S : System) (server : ServerJson) where
  -- The daemon at the socket has a state for each moment, and a request is answered by `serve_one`.
  pub record IsConnected (path : Text) (state : Trace → State I) (env : Trace → Env I)
      : Type 0 where
    pub wired :
        (t : Trace) (req : Request)
        → S.wire t path req
          ≡ some (over_socket I B C S.json server (env t) (S.json.to_string req) (state t)).0
    pub stepped :
        (t : Trace) (req : Request) (timeout : ℕ)
        → state (requests path req timeout ∷ t)
          ≡ (over_socket I B C S.json server (env t) (S.json.to_string req) (state t)).1

  -- The mode that holds after the request.
  abbrev pub mode_after : Option Mode → Mode → Mode
  mode_after none held = held
  mode_after (some m) held = m

  set_or_report_mode-after :
      (set : Option Mode) (self : State I)
      → set_or_report_mode I (set_text set) self
        ≡ (ok (mode_after set self.mode), record self { mode = mode_after set self.mode })
  unfolding set_or_report_mode set_text
  set_or_report_mode-after none self = refl
  set_or_report_mode-after (some m) self = rw (parse_mode_lem.0 m, set_or_report_mode) refl

  module _ (self : Paths) (state : Trace → State I) (env : Trace → Env I)
      (lawful : IsLawful S.json server) (both : IsConnected (socket self) state env)
      (t : Trace) where
    -- A request of a command, where the daemon's `handle` answers it.
    ask_for-handle :
        (req : Request) (timeout : ℕ) (sent s : Text) (response : Response) (after : State I)
        → S.json.to_string req ≡ some sent
        → handle I B C (env t) req (state t) ≡ (some response, after)
        → server.to_string response ≡ some s
        → (ask_for S self req timeout t
            ≡ (into_data response, requests (socket self) req timeout ∷ t))
          × (state (requests (socket self) req timeout ∷ t) ≡ after)
    unfolding ask_for ask_daemon
    ask_for-handle req timeout sent s response after e h p =
        let ends =
          request-handle I B C S.json server (env t) (state t) lawful req sent s response after e h
            p in
        let replied = ap (λ w. request S.json w req) (both.wired t req) ∙ ends.0 in
        (
          bind-ok (ask_daemon S (socket self) req timeout) (λ r. lift (into_data r)) t
              (requests (socket self) req timeout ∷ t) response
              (λ i. (replied i, requests (socket self) req timeout ∷ t)),
          both.stepped t req timeout ∙ ends.1,
        )

    mode_done-Printed :
        (m : Mode) (u : Trace) → mode_done S (mode_is (as_str m)) u ≡ (ok success, printed m u)
    unfolding mode_done as_str text_eq nat_eq
    mode_done-Printed Mode.auto u = refl
    mode_done-Printed Mode.manual u = refl

    -- `mode` at the command line and the daemon together: the mode that the daemon holds after the
    -- request is the one that was named, or the one it held where none was. The command then prints
    -- `manual` or `auto`, as the daemon's mode is, with the warning below it for `auto`, and ends
    -- with the exit code 0. The request and the reply can be printed, and each is read back from its
    -- line.
    pub run_mode-handle :
        (set : Option Mode) (sent s : Text)
        → S.json.to_string (Request.mode (set_text set)) ≡ some sent
        → server.to_string (answered (mode_is (as_str (mode_after set (state t).mode)))) ≡ some s
        → let u = requests (socket self) (Request.mode (set_text set)) ipc_timeout ∷ t in
          ((state u).mode ≡ mode_after set (state t).mode)
          × (run_mode S self set t ≡ (ok 0, printed (state u).mode u))
    unfolding run_mode handle into_data
    run_mode-handle set sent s e p =
        let u : Trace = requests (socket self) (Request.mode (set_text set)) ipc_timeout ∷ t in
        let held : Mode = mode_after set (state t).mode in
        let after : State I = record (state t) { mode = held } in
        let answered_ : handle I B C (env t) (Request.mode (set_text set)) (state t)
            ≡ (some (answered (mode_is (as_str held))), after) =
          ap (λ (r : Result Mode × State I). (some (respond (λ m. mode_is (as_str m)) r.0), r.1))
            (set_or_report_mode-after set (state t)) in
        let asked =
          ask_for-handle (Request.mode (set_text set)) ipc_timeout sent s
            (answered (mode_is (as_str held))) after e answered_ p in
        let now : (state u).mode ≡ held = ap (λ (x : State I). x.mode) asked.1 in
        let ran : run_mode S self set t ≡ mode_done S (mode_is (as_str held)) u =
          bind-ok (ask_for S self (Request.mode (set_text set)) ipc_timeout) (mode_done S) t u
            (mode_is (as_str held)) asked.0 in
        (now, ran ∙ mode_done-Printed held u ∙ ap (λ m. (ok 0, printed m u)) (sym now))
