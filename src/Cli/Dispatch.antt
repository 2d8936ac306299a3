-- ===== src/Cli/Dispatch.antt =====
-- `dispatch` of src/cli.rs: one function for each command that talks to a daemon.
use agent2agent.Render.{render_outgoing}
use agent2agent.Ipc.{
  invited, mode_is, sent, needs_approval, peer_gone, into_data, Request, ResponseData, StatusInfo,
}
use agent2agent.Cli.{
  Approval, granted, declined, no_terminal, ask_terminal, exit_declined, exit_needs_approval,
  exit_peer_gone,
}
use agent2agent.Base.Map
use agent2agent.Config.Mode.{Mode, as_str}
use agent2agent.Cli.Session.{report_session}
use agent2agent.Cli.Session.{report_session}
use agent2agent.Config.Identity.{name_for, remember, Identity}
use agent2agent.Base.Chars.Decimal.{decimal}
use agent2agent.Config.Paths.{identity, socket, Paths}
use agent2agent.Config.Store.{load_identity, save_identity}
use agent2agent.Base.Map.{Map}
use agent2agent.Wire.{Kind}
use agent2agent.Base.{
  ℕ, zero, suc, ◌*◌, ◌%◌, ◌^◌, Bool, true, false, ◌||◌, Option, none, some, List, [], ◌∷◌, ◌++◌,
  map, if◌then◌else◌, Text, text, ◌==◌, nat_eq, text_eq, err, ok_or, or_zero, rounds_over,
  no_name_set, unexpected_reply,
}
use agent2agent.System.{
  ask, current_dir, eprints, ask_daemon, prints, M, System, ◌>>=◌, ◌>>◌, return, lift, call, cond_m,
}

abbrev pub success : ℕ
success = 0

-- `ipc_timeout` is the ten seconds of a plain request, and the other is `daemon_send_timeout`.
abbrev pub ipc_timeout : ℕ
ipc_timeout = 10000

abbrev pub daemon_send_timeout : ℕ
daemon_send_timeout = 45000

abbrev pub ipc_grace : ℕ
ipc_grace = 10000

-- `if !text.is_empty() { println!("{text}") }`
abbrev pub prints_some : Text → M (Unit {0})
prints_some shown = cond_m (shown == []) (return tt) (call (prints shown))

unfoldable pub prints_all : List Text → M (Unit {0})
prints_all [] = return tt
prints_all (line ∷ lines) = call (prints line) >> prints_all lines

-- The lines of a status.
abbrev pub presence : Bool → Text
presence departed = if departed then text "disconnected" else text "open"

unfoldable pub member : Text → List Text → Bool
member name [] = false
member name (n ∷ names) = name == n || member name names

unfoldable pub peer_line : StatusInfo → Text × Text → Text
unfolding member
peer_line status (name, id) =
    text "  "
    ++ name
    ++ text "  "
    ++ id
    ++ text "  ("
    ++ presence (member name status.departed)
    ++ text ", "
    ++ decimal (or_zero (Map.get name status.queued))
    ++ text " queued)"

unfoldable pub peer_lines : StatusInfo → Map Text → List Text
peer_lines status [] = text "peers:   none configured" ∷ []
peer_lines status (e ∷ rest) = text "peers:" ∷ map (λ p. peer_line status p) (e ∷ rest)

abbrev pub or_dash : Option Text → Text
or_dash none = text "-"
or_dash (some name) = name

unfoldable pub status_lines : StatusInfo → List Text
unfolding peer_lines
status_lines status =
    (text "id:      " ++ status.id)
    ∷ (text "mode:    " ++ status.mode)
    ∷ (text "default: " ++ or_dash status.default_peer)
    ∷ (text "queued:  " ++ decimal status.queued_total)
    ∷ ((if status.invite_open then text "invite:  open" ∷ [] else [])
        ++ peer_lines status status.peers)

-- `wait.as_millis() as u64`
unfoldable pub wait_ms : ℕ → ℕ
wait_ms wait = wait * 1000 % 2 ^ 64

unfoldable pub set_text : Option Mode → Option Text
set_text none = none
set_text (some m) = some (as_str m)

module _ (S : System) where
  -- One request, and what an answer that is no error holds.
  unfoldable pub ask_for : Paths → Request → ℕ → M ResponseData
  unfolding ask_daemon socket
  ask_for paths req timeout = do
    response ← ask_daemon S (socket paths) req timeout
    lift (into_data response)

  -- `resolve_name`, with its calls
  unfoldable pub remembered : Paths → Text → Identity → Option Text → M Text
  unfolding save_identity identity
  remembered paths dir self (some name) = do
    changed ← lift (remember dir name self)
    save_identity S changed (identity paths)
    return name
  remembered paths dir self none = lift (ok_or no_name_set (name_for dir self))

  unfoldable pub name_to_use : Paths → Option Text → M Text
  name_to_use paths given = do
    dir ← current_dir S
    self ← load_identity S (identity paths)
    remembered paths dir self given

  -- The `match` on the answer to each request.
  unfoldable pub invite_done : Paths → ResponseData → M ℕ
  invite_done paths (invited code) = do call (prints code); report_session paths; return success
  invite_done paths _ = lift (err unexpected_reply)

  unfoldable pub run_invite : Paths → Option Text → Text → ℕ → M ℕ
  run_invite paths given greeting ttl = do
    name ← name_to_use paths given
    data_ ← ask_for paths (Request.invite name (some greeting) ttl) ipc_timeout
    invite_done paths data_

  unfoldable pub join_done : Paths → ResponseData → M ℕ
  join_done paths (ResponseData.joined peer name) = do
    call (
        eprints
          (text "paired with " ++ peer ++ text ", and you are " ++ name ++ text " on this channel"))
    report_session paths
    return success
  join_done paths _ = lift (err unexpected_reply)

  unfoldable pub run_join : Paths → Text → Option Text → Text → M ℕ
  run_join paths code given greeting = do
    name ← name_to_use paths given
    data_ ← ask_for paths (Request.join code name (some greeting)) daemon_send_timeout
    join_done paths data_

  unfoldable pub mode_done : ResponseData → M ℕ
  mode_done (mode_is m) = do
    call (prints m)
    cond_m (m == text "auto")
        (call (
          eprints (
            text
              "the agents will talk without asking, until this conversation ends or the daemon restarts")))
        (return tt)
    return success
  mode_done _ = lift (err unexpected_reply)

  unfoldable pub run_mode : Paths → Option Mode → M ℕ
  run_mode paths set = do
    data_ ← ask_for paths (Request.mode (set_text set)) ipc_timeout
    mode_done data_

  -- What follows the operator's answer; `again` sends the message as confirmed.
  unfoldable pub after_answer : M ℕ → Text → Approval → M ℕ
  after_answer again preview granted = again
  after_answer again preview declined = do call (eprints (text "not sent")); return exit_declined
  after_answer again preview no_terminal = do
    call (eprints preview)
    call (
        eprints (
          10
          ∷ text
              "manual mode: this was NOT sent. Show it to your user, and only if they agree, re-run the same command with --confirm."))
    return exit_needs_approval

  unfoldable pub deliver_done : (Option Text → M ℕ) → Text → ResponseData → M ℕ
  deliver_done again body (sent peer id) = do
    cond_m (render_outgoing body == []) (call (eprints (text "sent to " ++ peer)))
        (call (prints (render_outgoing body)))
    return success
  deliver_done again body (needs_approval peer) = do
    answer ← ask S (render_outgoing body)
    after_answer (again (some peer)) (render_outgoing body) (ask_terminal answer)
  deliver_done again body (peer_gone peer) = do
    call (
        eprints (
          peer
          ++ text
              " has disconnected and is not reading replies; reopen with `agent2agent hello --to "
          ++ peer
          ++ text "` if you think they are back"))
    return exit_peer_gone
  deliver_done again body _ = lift (err unexpected_reply)

  -- `deliver`, with its calls. The rounds bound how often the daemon is asked.
  unfoldable pub deliver_message : ℕ → Paths → Option Text → Kind → Text → Bool → M ℕ
  deliver_message zero paths to kind body confirmed = lift (err rounds_over)
  deliver_message (suc rounds) paths to kind body confirmed = do
    data_ ← ask_for paths (Request.send to body kind confirmed) daemon_send_timeout
    deliver_done (λ peer. deliver_message rounds paths peer kind body true) body data_
