-- ===== src/Cli/Edited.antt =====
-- `run_peer` of src/cli.rs: an edit of the peer list is saved whole, or nothing is.
use agent2agent.Cli.Machine.{told_and_nudged, removed_peer}
use agent2agent.Base.{
  ℕ, ◌≡◌, refl, ◌∙◌, inl, inr, Bool, true, false, [], ◌∷◌, ◌++◌, Text, nat_eq, text_eq, All, Result,
  ok, err, Error, Result-cases, unknown_peer,
}
use agent2agent.Cli.Command.{PeerAction}
use agent2agent.Cli.Dispatch.{success}
use agent2agent.Cli.Machine.{told_and_nudged, nudge_daemon, save_and_tell, act_on, run_peer}
use agent2agent.Config.Iroh.{Iroh}
use agent2agent.Config.Peers.{Peers, add, remove, set_default}
use agent2agent.Config.Paths.{Paths, peers, socket}
use agent2agent.Config.Store.{load_peers, save_peers}
use agent2agent.Config.Store.Kept.{
  IsDisk, IsLeft, Leaves, file-later, load_peers-later, load-save_peers,
}
use agent2agent.Ipc.{Request}
use agent2agent.System.Bind.{bind-ok, bind-err}
use agent2agent.System.{System, Call, Trace, ◌>>=◌, lift, eprints, reads, requests, ask_daemon}

-- The list that an action asks for; listing asks for none.
abbrev pub removed_or : Text → Bool × Peers → Result Peers
removed_or name (true, rest) = ok rest
removed_or name (false, rest) = err (unknown_peer name)

abbrev pub edit : Iroh → PeerAction → Peers → Result Peers
edit I (PeerAction.add name given) self = add I name given self
edit I (PeerAction.remove name) self = removed_or name (remove name self)
edit I (PeerAction.default_ name) self = set_default name self
edit I (PeerAction.list json) self = ok self

abbrev pub Edits : PeerAction → Type 0
Edits (PeerAction.list json) = ⊥
Edits _ = Unit {0}

-- The requests that a daemon answers without pairing. While nobody pairs, it leaves the peer list.
abbrev pub Unpaired : Call → Type 0
Unpaired (requests path (Request.invite _ _ _) timeout) = ⊥
Unpaired (requests path (Request.join _ _ _) timeout) = ⊥
Unpaired (requests path _ timeout) = Unit {0}
Unpaired _ = ⊥

-- The list is loaded from now on, whatever follows that leaves its file alone.
abbrev pub StaysLoaded : System → Text → Trace → Peers → Type 0
StaysLoaded S path t known =
    (v : Trace)
    → All (Leaves Unpaired path) v
    → load_peers S path (v ++ t) ≡ (ok known, reads path ∷ v ++ t)

-- What an edit has done, from the calls of `t` on.
pub data Edited (S : System) (paths : Paths) (t : Trace)
    : Result Peers → Result ℕ × Trace → Type 0 where
  refused : (e : Error) → Edited S paths t (err e) (err e, t)
  not_saved :
      (changed : Peers) (e : Error) (u : Trace)
      → save_peers S changed (peers paths) t ≡ (err e, u)
      → Edited S paths t (ok changed) (err e, u)
  saved :
      (changed : Peers) (said : Text) (u : Trace)
      → StaysLoaded S
          (peers paths)
          (requests (socket paths) Request.reload 5000 ∷ eprints said ∷ u)
          changed
      → Edited S paths t
          (ok changed)
          (ok success, requests (socket paths) Request.reload 5000 ∷ eprints said ∷ u)

told_lem :
    (S : System) (paths : Paths) (said : Text) (u : Trace)
    → told_and_nudged S paths said u
      ≡ (ok success, requests (socket paths) Request.reload 5000 ∷ eprints said ∷ u)
unfolding told_and_nudged nudge_daemon ask_daemon
told_lem S paths said u = refl

module _ (S : System) (disk : IsDisk S) (paths : Paths) (left : IsLeft S (peers paths) Unpaired)
    (t : Trace) where
  saved-StaysLoaded :
      (changed : Peers) (said : Text) (u : Trace)
      → save_peers S changed (peers paths) t ≡ (ok tt, u)
      → StaysLoaded S
          (peers paths)
          (requests (socket paths) Request.reload 5000 ∷ eprints said ∷ u)
          changed
  saved-StaysLoaded changed said u done v h =
      let w = requests (socket paths) Request.reload 5000 ∷ eprints said ∷ u in
      let ours : Trace = requests (socket paths) Request.reload 5000 ∷ eprints said ∷ [] in
      load_peers-later S (peers paths) u (v ++ w) changed
        (file-later S disk (peers paths) Unpaired left v w h
          ∙ file-later S disk (peers paths) Unpaired left ours u (inr tt, (inl tt, tt)))
        (load-save_peers S disk (peers paths) changed t u done)

  save-Edited :
      (changed : Peers) (said : Text)
      → Edited S paths t (ok changed) (save_and_tell S paths changed said t)
  unfolding save_and_tell
  save-Edited changed said =
      let save = save_peers S changed (peers paths) in
      let rest = λ (_ : Unit {0}). told_and_nudged S paths said in
      elim (Result-cases (save t).0) [
        | inl good ↦
            let u = (save t).1 in
            let done : save t ≡ (ok tt, u) = λ i. (good.1 i, u) in
            rw (bind-ok save rest t u tt done) (
              rw (told_lem S paths said u)
                (saved changed said u (saved-StaysLoaded changed said u done)))
        | inr bad ↦
            let u = (save t).1 in
            let done : save t ≡ (err bad.0, u) = λ i. (bad.1 i, u) in
            rw (bind-err save rest t u bad.0 done) (not_saved changed bad.0 u done)
      ]

  edit-Edited :
      (r : Result Peers) (said : Text)
      → Edited S paths t r ((lift r >>= λ changed. save_and_tell S paths changed said) t)
  edit-Edited (err e) said = refused e
  edit-Edited (ok changed) said = save-Edited changed said

  removal-Edited :
      (name : Text) (r : Bool × Peers)
      → Edited S paths t (removed_or name r) (removed_peer S paths name r t)
  unfolding removed_peer
  removal-Edited name (true, rest) = save-Edited rest _
  removal-Edited name (false, rest) = refused (unknown_peer name)

  act_on-Edited :
      (I : Iroh) (self : Peers) (action : PeerAction)
      → Edits action
      → Edited S paths t (edit I action self) (act_on S I paths self action t)
  unfolding act_on
  act_on-Edited I self (PeerAction.add name given) h = edit-Edited (add I name given self) _
  act_on-Edited I self (PeerAction.remove name) h = removal-Edited name (remove name self)
  act_on-Edited I self (PeerAction.default_ name) h = edit-Edited (set_default name self) _
  act_on-Edited I self (PeerAction.list json) h = absurd h

-- An edit of the peer list by `peer add`, `peer remove` or `peer default`, once the list was read,
-- on a disk that keeps what is written and with a `toml` that reads back what it prints: an edit that
-- is refused is the command's error, and no file is touched. Where saving one that is not fails, that
-- is the error. Else the daemon was told to load the list and the exit code is 0, whatever it
-- answered, and the edited list is what is loaded after that, as long as the file is not written or
-- deleted again and other programs run only while the daemon is asked for what does not pair, for
-- which it is relied on to leave the file.
pub run_peer-Edited :
    (S : System) (I : Iroh) (paths : Paths) (action : PeerAction) (self : Peers) (t u : Trace)
    → IsDisk S
    → IsLeft S (peers paths) Unpaired
    → Edits action
    → load_peers S (peers paths) t ≡ (ok self, u)
    → Edited S paths u (edit I action self) (run_peer S I paths action t)
unfolding run_peer
run_peer-Edited S I paths action self t u disk left edits loaded =
    rw
      (bind-ok (load_peers S (peers paths)) (λ (p : Peers). act_on S I paths p action) t u self
        loaded)
      (act_on-Edited S disk paths left u I self action edits)
