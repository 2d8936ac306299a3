-- ===== src/Cli/Reach/Files.antt =====
-- The calls that `invite`, `join`, `peer` and `id` make: these write files.
use agent2agent.Cli.Machine.{removed_peer}
use agent2agent.Config.Peers.{remove, Peers}
use agent2agent.Cli.Machine.{removed_peer, told_and_nudged}
use agent2agent.Cli.Session.{report_session}
use agent2agent.Config.Identity.{Identity}
use agent2agent.Config.Store.{owner_file, owner_dir, parent}
use agent2agent.Config.Iroh.{Iroh}
use agent2agent.Base.{ℕ, Bool, true, false, Option, none, some, Text, nat_eq, text_eq}
use agent2agent.Cli.Dispatch.{remembered, name_to_use, invite_done, run_invite, join_done, run_join}
use agent2agent.Cli.Machine.{nudge_daemon, save_and_tell, list_peers, act_on, run_peer, run_id}
use agent2agent.Cli.Reach.Steps.{ask_for-Makes, report_session-Makes, prints_all-Makes}
use agent2agent.Cli.Command.{PeerAction}
use agent2agent.Config.Paths.{Paths, socket, identity, peers, secret_key}
use agent2agent.Config.Store.Makes.{store_makes}
use agent2agent.Ipc.{Request, ResponseData, invited, joined}
use agent2agent.System.{
  draws, writes, restricts, creates, checks, reads, prints, eprints, requests, System, Call,
}
use agent2agent.System.Makes.{Makes, calls_make}

module _ (S : System) (self : Paths) {P : Call → Type 0}
    (talks : (req : Request) (timeout : ℕ) → P (requests (socket self) req timeout))
    (says : (shown : Text) → P (eprints shown)) (shows : (shown : Text) → P (prints shown)) where
  module _ (reads_it : P (reads (identity self))) (makes_it : P (creates (parent (identity self))))
      (writes_it : (contents : Text) → P (writes (identity self) contents)) where
    remembered-Makes :
        (dir : Text) (known : Identity) (given : Option Text)
        → Makes P (remembered S self dir known given)
    unfolding remembered
    remembered-Makes dir known (some name) = search (calls_make, store_makes) depth 12
    remembered-Makes dir known none = search calls_make

    pub name_to_use-Makes : (given : Option Text) → Makes P (name_to_use S self given)
    unfolding name_to_use
    name_to_use-Makes given = search (calls_make, store_makes, remembered-Makes) depth 12

    invite_done-Makes : (data_ : ResponseData) → Makes P (invite_done S self data_)
    unfolding invite_done
    invite_done-Makes (invited code) =
        let reported : Makes P (report_session self) =
          report_session-Makes S self talks says shows in
        search calls_make depth 12
    invite_done-Makes _ = search calls_make

    pub run_invite-Makes :
        (given : Option Text) (greeting : Text) (ttl : ℕ)
        → Makes P (run_invite S self given greeting ttl)
    unfolding run_invite
    run_invite-Makes given greeting ttl =
        search
          (
            calls_make,
            name_to_use-Makes,
            ask_for-Makes S self {P = P} talks says shows,
            invite_done-Makes,
          )
          depth 12

    join_done-Makes : (data_ : ResponseData) → Makes P (join_done S self data_)
    unfolding join_done
    join_done-Makes (joined peer name) =
        let reported : Makes P (report_session self) =
          report_session-Makes S self talks says shows in
        search calls_make depth 12
    join_done-Makes _ = search calls_make

    pub run_join-Makes :
        (code : Text) (given : Option Text) (greeting : Text)
        → Makes P (run_join S self code given greeting)
    unfolding run_join
    run_join-Makes code given greeting =
        search
          (
            calls_make,
            name_to_use-Makes,
            ask_for-Makes S self {P = P} talks says shows,
            join_done-Makes,
          )
          depth 12

  module _ (reads_it : P (reads (peers self))) (makes_it : P (creates (parent (peers self))))
      (writes_it : (contents : Text) → P (writes (peers self) contents))
      (restricts_it : P (restricts (peers self) owner_file)) where
    nudge_daemon-Makes : Makes P (nudge_daemon S self)
    unfolding nudge_daemon
    nudge_daemon-Makes = search calls_make depth 12

    save_and_tell-Makes :
        (changed : Peers) (said : Text) → Makes P (save_and_tell S self changed said)
    unfolding save_and_tell told_and_nudged
    save_and_tell-Makes changed said = search (calls_make, store_makes, nudge_daemon-Makes) depth 12

    removed_peer-Makes : (name : Text) (r : Bool × Peers) → Makes P (removed_peer S self name r)
    unfolding removed_peer
    removed_peer-Makes name (true, changed) = save_and_tell-Makes changed _
    removed_peer-Makes name (false, changed) = search calls_make

    list_peers-Makes : (json : Bool) (known : Peers) → Makes P (list_peers S json known)
    unfolding list_peers
    list_peers-Makes true known = search calls_make depth 12
    list_peers-Makes false known =
        search (calls_make, prints_all-Makes S self {P = P} talks says shows) depth 12

    act_on-Makes :
        (I : Iroh) (known : Peers) (action : PeerAction) → Makes P (act_on S I self known action)
    unfolding act_on
    act_on-Makes I known (PeerAction.add name given) =
        search (calls_make, save_and_tell-Makes) depth 12
    act_on-Makes I known (PeerAction.remove name) = removed_peer-Makes name (remove name known)
    act_on-Makes I known (PeerAction.default_ name) =
        search (calls_make, save_and_tell-Makes) depth 12
    act_on-Makes I known (PeerAction.list json) = list_peers-Makes json known

    pub run_peer-Makes : (I : Iroh) (action : PeerAction) → Makes P (run_peer S I self action)
    unfolding run_peer
    run_peer-Makes I action = search (calls_make, store_makes, act_on-Makes) depth 12

  module _ (looks : P (checks (secret_key self))) (reads_it : P (reads (secret_key self)))
      (makes_it : P (creates self.dir)) (restricts_dir : P (restricts self.dir owner_dir))
      (random : P (draws 32))
      (writes_it : (contents : Text) → P (writes (secret_key self) contents))
      (restricts_it : P (restricts (secret_key self) owner_file)) where
    pub run_id-Makes : (json : Bool) → Makes P (run_id S self json)
    unfolding run_id
    run_id-Makes json = search (calls_make, store_makes) depth 12
