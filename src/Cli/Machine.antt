-- ===== src/Cli/Machine.antt =====
-- The commands of src/cli.rs that work on files: `peer`, `id`, `whoami` and `sessions`.
use agent2agent.Config.Identity.{name_for, remember, Identity}
use agent2agent.Config.Paths.{from_dir, for_session, identity, peers, sessions_dir, Paths, socket}
use agent2agent.Config.Store.{
  load_identity, remove_state, load_key, load_peers, save_identity, save_peers,
}
use agent2agent.Base.Order.{text_lt}
use agent2agent.Base.Map.{Map}
use agent2agent.Base.{
  ℕ, Bool, true, false, Option, none, some, List, [], ◌∷◌, ◌++◌, if◌then◌else◌, Text, text, ◌==◌,
  nat_eq, text_eq, Result, ok, err, ok_or, within, reading, io_failed, bad_json, unknown_peer,
}
use agent2agent.Cli.Command.{PeerAction}
use agent2agent.Config.Iroh.{Iroh}
use agent2agent.Config.Peers.{Peer, Peers, add, remove, set_default}
use agent2agent.Ipc.{Request}
use agent2agent.Cli.Dispatch.{success, prints_all}
use agent2agent.System.{
  eprints, ask_daemon, prints, M, current_dir, daemon_is_running, list_dir, System, ◌>>=◌, ◌>>◌,
  return, lift, call, cond_m, attempt, Directory,
}

abbrev pub failure : ℕ
failure = 1

-- `ids.sort()`
unfoldable pub insert_text : Text → List Text → List Text
insert_text s [] = s ∷ []
insert_text s (t ∷ ts) = if text_lt t s then t ∷ insert_text s ts else s ∷ t ∷ ts

unfoldable pub sort : List Text → List Text
unfolding insert_text text_lt
sort [] = []
sort (s ∷ ts) = insert_text s (sort ts)

abbrev pub marker : Option Text → Text → Text
marker none name = text " "
marker (some d) name = if d == name then text "*" else text " "

unfoldable pub listed : Option Text → Map Peer → List Text
listed chosen [] = []
listed chosen ((name, peer) ∷ rest) =
    (marker chosen name ++ (b' ' ∷ (name ++ text "  " ++ peer.id))) ∷ listed chosen rest

unfoldable pub list_lines : Option Text → Map Peer → List Text
unfolding listed
list_lines chosen [] = text "no peers configured" ∷ []
list_lines chosen (e ∷ rest) = listed chosen (e ∷ rest)

module _ (S : System) where
  -- Best effort: the answer is not looked at.
  unfoldable pub nudge_daemon : Paths → M (Unit {0})
  unfolding socket ask_daemon
  nudge_daemon paths = attempt (ask_daemon S (socket paths) Request.reload 5000) >> return tt

  -- What each action that changes the list ends with.
  unfoldable pub told_and_nudged : Paths → Text → M ℕ
  unfolding nudge_daemon
  told_and_nudged paths said = do call (eprints said); nudge_daemon paths; return success

  unfoldable pub save_and_tell : Paths → Peers → Text → M ℕ
  unfolding save_peers peers told_and_nudged
  save_and_tell paths self said = save_peers S self (peers paths) >> told_and_nudged paths said

  -- The end of `remove`, by whether the peer was there.
  unfoldable pub removed_peer : Paths → Text → Bool × Peers → M ℕ
  removed_peer paths name (true, changed) =
      save_and_tell paths changed (text "removed peer " ++ name)
  removed_peer paths name (false, changed) = lift (err (unknown_peer name))

  unfoldable pub list_peers : Bool → Peers → M ℕ
  list_peers true self = do
    shown ← lift (ok_or bad_json (S.peers_json self))
    call (prints shown)
    return success
  list_peers false self = prints_all (list_lines self.default self.peers) >> return success

  -- The arms of `run_peer`, at the list that was read.
  unfoldable pub act_on : Iroh → Paths → Peers → PeerAction → M ℕ
  act_on I paths self (PeerAction.add name given) = do
    changed ← lift (add I name given self)
    save_and_tell paths changed (text "added peer " ++ name)
  act_on I paths self (PeerAction.remove name) = removed_peer paths name (remove name self)
  act_on I paths self (PeerAction.default_ name) = do
    changed ← lift (set_default name self)
    save_and_tell paths changed (text "default peer is now " ++ name)
  act_on I paths self (PeerAction.list json) = list_peers json self

  unfoldable pub run_peer : Iroh → Paths → PeerAction → M ℕ
  unfolding load_peers peers
  run_peer I paths action = do self ← load_peers S (peers paths); act_on I paths self action

  unfoldable pub run_id : Paths → Bool → M ℕ
  unfolding load_key
  run_id paths json = do
    key ← load_key S paths
    call (prints (if json then S.id_json (S.public key) else S.public key))
    return success

  unfoldable pub show_name : Option Text → M ℕ
  show_name (some name) = do call (prints name); return success
  show_name none = do
    call (eprints (text "no name set here — pick a short one and run `agent2agent whoami <name>`"))
    return failure

  unfoldable pub set_or_show : Paths → Text → Identity → Option Text → M ℕ
  unfolding save_identity identity
  set_or_show paths dir self (some name) = do
    changed ← lift (remember dir name self)
    save_identity S changed (identity paths)
    call (prints name)
    return success
  set_or_show paths dir self none = show_name (name_for dir self)

  unfoldable pub run_whoami : Text → Option Text → M ℕ
  unfolding current_dir load_identity identity
  run_whoami base name =
      let paths = from_dir base in
      do
        dir ← current_dir S
        self ← load_identity S (identity paths)
        set_or_show paths dir self name

  unfoldable pub session_ids : Text → Directory → Result (List Text)
  session_ids dir Directory.missing = ok []
  session_ids dir Directory.unreadable = err (within (reading dir) io_failed)
  session_ids dir (Directory.holds names) = ok (sort names)

  -- One round of the loop over the sessions, from its parts.
  unfoldable pub pruned : Text → Paths → M (Unit {0})
  pruned name paths = remove_state S paths >> call (prints (name ++ text "  removed"))

  unfoldable pub by_state : Bool → Text → Paths → Bool → M (Unit {0})
  unfolding pruned
  by_state prune name paths live =
      cond_m live (call (prints (name ++ text "  live")))
        (cond_m prune (pruned name paths) (call (prints (name ++ text "  stopped"))))

  unfoldable pub show_session : Bool → Text → Paths → M (Unit {0})
  unfolding daemon_is_running socket by_state
  show_session prune name paths = daemon_is_running S (socket paths) >>= by_state prune name paths

  unfoldable pub show_sessions : Text → Bool → List Text → M ℕ
  show_sessions base prune [] = return success
  show_sessions base prune (name ∷ names) = do
    paths ← lift (for_session base name)
    show_session prune name paths
    show_sessions base prune names

  unfoldable pub show_any : Text → Bool → List Text → M ℕ
  show_any base prune [] = do call (prints (text "no conversations")); return success
  show_any base prune (name ∷ names) = show_sessions base prune (name ∷ names)

  unfoldable pub run_sessions : Text → Bool → M ℕ
  unfolding list_dir session_ids
  run_sessions base prune = do
    entries ← list_dir S (sessions_dir base)
    names ← lift (session_ids (sessions_dir base) entries)
    show_any base prune names
