-- ===== src/Cli/Run.antt =====
-- `run` and `dispatch` of src/cli.rs, and src/main.rs: a parsed command from its start to its exit code.
use agent2agent.Base.{
  ℕ, ◌+◌, ◌*◌, ◌^◌, Bool, true, false, Option, none, some, List, [], ◌∷◌, leb, if◌then◌else◌, Text,
  text, nat_eq, text_eq, Result, ok, err, bail_if, ok_or, panics, no_session, unexpected_reply,
  bad_json,
}
use agent2agent.Cli.{exit_no_message, exit_peer_gone, collect_message, optional_message, read_mode}
use agent2agent.Cli.Command.{Command, Cli, needs_daemon, is_opening, paths, base}
use agent2agent.Cli.Dispatch.{
  success, ipc_timeout, ipc_grace, prints_some, prints_all, status_lines, wait_ms, ask_for,
  run_invite, run_join, run_mode, deliver_message,
}
use agent2agent.Cli.Machine.{failure, run_peer, run_id, run_whoami, run_sessions}
use agent2agent.Cli.Session.{new_session, end_session, ensure_daemon}
use agent2agent.Config.Iroh.{Iroh}
use agent2agent.Config.Mode.{Mode, is_manual}
use agent2agent.Config.Paths.{Paths}
use agent2agent.Daemon.Process.{run_daemon}
use agent2agent.Inbox.{Message}
use agent2agent.Ipc.{Request, ResponseData, message, no_message, status_is}
use agent2agent.Pairing.Base64.{Base64}
use agent2agent.Pairing.Code.{InviteCode, decode}
use agent2agent.Render.{incoming_notice, render_incoming}
use agent2agent.Wire.{Kind, msg, hello, bye}
use agent2agent.System.{
  eprints, prints, read_stdin, M, System, ◌>>=◌, ◌>>◌, return, lift, call, cond_m, attempt,
}

-- A goodbye ends the listening loop.
unfoldable pub exit_for : Kind → ℕ
exit_for bye = exit_peer_gone
exit_for msg = success
exit_for hello = success

-- The failing command's end comes first, and then the clearing up, which cannot change it.
abbrev pub settled : Bool → M (Unit {0}) → Result ℕ → M ℕ
settled minted clear (ok code) t = (ok code, t)
settled minted clear (err e) t = (err e, if minted then (clear t).1 else t)

abbrev pub cleared_up : Bool → M (Unit {0}) → M ℕ → M ℕ
cleared_up minted clear m t = settled minted clear (m t).0 (m t).1

-- src/main.rs: the exit code of the process.
unfoldable pub exit_code : Result ℕ → ℕ
exit_code (ok code) = code
exit_code (err _) = failure

module _ (S : System) where
  -- `current_mode`, with its request
  unfoldable pub ask_mode : Paths → M Mode
  unfolding ask_for read_mode
  ask_mode paths = do
    data_ ← ask_for S paths (Request.mode none) ipc_timeout
    lift (read_mode data_)

  unfoldable pub show_message : Paths → Bool → Message → M (Unit {0})
  unfolding ask_mode
  show_message paths true m = do
    shown ← lift (ok_or bad_json (S.message_json m))
    call (prints shown)
  show_message paths false m = do
    mode ← ask_mode paths
    call (eprints (incoming_notice m (is_manual mode)))
    prints_some (render_incoming m)

  unfoldable pub recv_done : Paths → Bool → ResponseData → M ℕ
  unfolding show_message exit_for
  recv_done paths json (message m) = do show_message paths json m; return (exit_for m.kind)
  recv_done paths json no_message = do call (eprints (text "no message")); return exit_no_message
  recv_done paths json _ = lift (err unexpected_reply)

  -- `wait + IPC_GRACE` panics where the sum of seconds is none of 64 bits.
  unfoldable pub run_recv : Paths → Option Text → ℕ → Bool → M ℕ
  unfolding ask_for wait_ms recv_done
  run_recv paths from wait json = do
    lift (bail_if (leb (2 ^ 64) (wait + 10)) panics)
    data_ ← ask_for S paths (Request.recv from (wait_ms wait)) (wait * 1000 + ipc_grace)
    recv_done paths json data_

  unfoldable pub status_done : Bool → ResponseData → M ℕ
  status_done true (status_is status) = do
    shown ← lift (ok_or bad_json (S.status_json status))
    call (prints shown)
    return success
  status_done false (status_is status) = do prints_all (status_lines status); return success
  status_done json _ = lift (err unexpected_reply)

  unfoldable pub run_status : Paths → Bool → M ℕ
  unfolding ask_for status_done
  run_status paths json = do
    data_ ← ask_for S paths Request.status ipc_timeout
    status_done json data_

  unfoldable pub run_send : ℕ → Paths → Option Text → Bool → List Text → M ℕ
  run_send rounds paths to confirm [] = do
    buffer ← read_stdin S
    body ← lift (collect_message (ok buffer) [])
    deliver_message S rounds paths to msg body confirm
  run_send rounds paths to confirm (part ∷ parts) = do
    body ← lift (collect_message (ok []) (part ∷ parts))
    deliver_message S rounds paths to msg body confirm

  -- The peer is told if that can be done; the conversation ends either way. What is printed of the
  -- failure is its first words only.
  unfoldable pub told : Result ℕ → M ℕ
  told (ok code) = return code
  told (err e) = do call (eprints (text "could not tell the other side")); return success

  unfoldable pub run_bye : ℕ → Paths → Option Text → List Text → M ℕ
  unfolding deliver_message end_session told
  run_bye rounds paths to parts = do
    end_ ← attempt (deliver_message S rounds paths to bye (optional_message parts) true)
    code ← told end_
    end_session S paths
    return code

-- `InviteCode::decode(code)?`, whose value is not used
abbrev pub checked : Result InviteCode → Result (Unit {0})
checked (err e) = err e
checked (ok _) = ok tt

module _ (I : Iroh) (B : Base64) (S : System) where
  -- The arms of `dispatch`. The rounds bound how often the daemon is asked to send.
  unfoldable pub perform : ℕ → Paths → Command → M ℕ
  perform rounds paths Command.daemon = do run_daemon S paths; return success
  perform rounds paths (Command.id json) = run_id S paths json
  perform rounds paths (Command.peer action) = run_peer S I paths action
  perform rounds paths (Command.invite name greeting ttl) = run_invite S paths name greeting ttl
  perform rounds paths (Command.join code name greeting) = run_join S paths code name greeting
  perform rounds paths (Command.mode set) = run_mode S paths set
  perform rounds paths (Command.send to confirm parts) = run_send S rounds paths to confirm parts
  perform rounds paths (Command.hello to parts) =
      deliver_message S rounds paths to hello (optional_message parts) true
  perform rounds paths (Command.bye to parts) = run_bye S rounds paths to parts
  perform rounds paths (Command.recv from wait json) = run_recv S paths from wait json
  perform rounds paths (Command.status json) = run_status S paths json
  -- `unreachable!()`
  perform rounds paths (Command.whoami name) = lift (err panics)
  perform rounds paths (Command.sessions prune) = lift (err panics)

  -- A mistyped code is refused before a daemon is started.
  unfoldable pub check_join : Command → Result (Unit {0})
  check_join (Command.join code name greeting) = checked (decode I B code)
  check_join _ = ok tt

  unfoldable pub dispatch : ℕ → Paths → Command → M ℕ
  unfolding check_join
  dispatch rounds paths command = do
    lift (check_join command)
    cond_m (needs_daemon command) (ensure_daemon S paths) (return tt)
    perform rounds paths command

  -- The paths to act on, and whether they were minted.
  unfoldable pub session_for : Cli → Option Paths → M (Paths × Bool)
  session_for cli (some paths) = return (paths, false)
  session_for cli none =
      cond_m (is_opening cli.command) (do paths ← new_session S cli; return (paths, true))
        (lift (err no_session))

  unfoldable pub in_chosen : ℕ → Cli → Paths × Bool → M ℕ
  in_chosen rounds cli (chosen, minted) =
      cleared_up minted (end_session S chosen) (dispatch rounds chosen cli.command)

  unfoldable pub run_found : ℕ → Cli → Option Paths → M ℕ
  run_found rounds cli found = session_for cli found >>= in_chosen rounds cli

  unfoldable pub run_in_session : ℕ → Cli → M ℕ
  unfolding session_for in_chosen run_found
  run_in_session rounds cli = lift (paths S.environment cli) >>= run_found rounds cli

  unfoldable pub run_command : ℕ → Cli → Text → Command → M ℕ
  run_command rounds cli dir (Command.whoami name) = run_whoami S dir name
  run_command rounds cli dir (Command.sessions prune) = run_sessions S dir prune
  run_command rounds cli dir _ = run_in_session rounds cli

  unfoldable pub run : ℕ → Cli → M ℕ
  unfolding run_command run_in_session
  run rounds cli = do dir ← lift (base S.environment cli); run_command rounds cli dir cli.command
