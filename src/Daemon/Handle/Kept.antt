-- ===== src/Daemon/Handle/Kept.antt =====
-- The invariant of the daemon's state in src/daemon.rs, kept by what changes the inbox and the list
-- of peers.
use agent2agent.Base.{
  ℕ, ◌≡◌, refl, ◌⊎◌, inl, inr, Bool, true, false, Option, some, arith, Text, nat_eq, text_eq,
  Result, ok, err, Result-cases,
}
use agent2agent.Config.Iroh.{Iroh}
use agent2agent.Config.Peers.{name_for, remove, EndpointAddr, add_paired}
use agent2agent.Config.Peers.Invariant.{IsValid}
use agent2agent.Config.Peers.Kept.{add_paired-IsValid}
use agent2agent.Daemon.{State}
use agent2agent.Daemon.Join.{
  World, joined, authorize, revoke, join, join_inviter, prepare, perform_join, is_known,
}
use agent2agent.Pairing.Base64.{Base64}
use agent2agent.Daemon.Deliver.{Pending, stalled, finished}
use agent2agent.Config.Peers.Kept.{remove-IsValid}
use agent2agent.Daemon.Deliver.{Attempt, Codecs}
use agent2agent.Daemon.Invite.{or_empty, redeem_invite, record_peer, take_invite}
use agent2agent.Daemon.Send.{
  Stamp, send_kind, dispatched, announced, addressee, end_of_conversation,
}
use agent2agent.Inbox.Bounds.{IsBounded}
use agent2agent.Wire.{Kind, msg, hello, bye}

module _ (I : Iroh) where
  open I use {EndpointId}

  pub record IsSound (s : State I) : Type 0 where
    pub inbox : IsBounded s.inbox
    pub peers : IsValid s.peers

  -- A change that leaves both alone.
  same_parts : (s s' : State I) → s'.inbox ≡ s.inbox → s'.peers ≡ s.peers → IsSound s → IsSound s'
  same_parts s s' a b h = record { inbox = rw a h.inbox; peers = rw b h.peers }

  module _ (C : Codecs) where
    dispatched-IsSound :
        (net : Attempt I × Attempt I) (stamp : Stamp) (kind : Kind) (body : Text) (name : Text)
        (addr : EndpointAddr I) (s : State I)
        → ((dispatched I C net stamp kind body (name, addr) s).1.inbox ≡ s.inbox)
          × ((dispatched I C net stamp kind body (name, addr) s).1.peers ≡ s.peers)
    unfolding dispatched announced end_of_conversation
    dispatched-IsSound net stamp msg body name addr s = ground arith
    dispatched-IsSound net stamp hello body name addr s = (refl, refl)
    dispatched-IsSound net stamp bye body name addr s = (refl, refl)

    pub send_kind-IsSound :
        (net : Attempt I × Attempt I) (stamp : Stamp) (peer : Option Text) (kind : Kind)
        (body : Text) (s : State I)
        → IsSound s
        → IsSound (send_kind I C net stamp peer kind body s).1
    unfolding send_kind
    send_kind-IsSound net stamp peer kind body s h =
        elim (Result-cases (addressee I C peer s.peers)) [
          | inr bad ↦
              let e : (send_kind I C net stamp peer kind body s).1 ≡ s = ground arith in rw e h
          | inl found ↦
              let (a, b) = dispatched-IsSound net stamp kind body found.0.0 found.0.1 s in
              let e : (send_kind I C net stamp peer kind body s).1
                  ≡ (dispatched I C net stamp kind body found.0 s).1 =
                ground arith in
              rw e (same_parts s _ a b h)
        ]

  record_peer-IsSound :
      (saved : Result (Unit {0})) (preferred : Text) (id : EndpointId) (s : State I)
      → IsSound s
      → IsSound (record_peer I saved preferred id s).1
  unfolding record_peer
  record_peer-IsSound saved preferred id s h =
      elim (Result-cases (add_paired I preferred id s.peers)) [
        | inr bad ↦ let e : (record_peer I saved preferred id s).1 ≡ s = ground arith in rw e h
        | inl added ↦
            let e : ((record_peer I saved preferred id s).1.peers ≡ added.0.1)
                × ((record_peer I saved preferred id s).1.inbox ≡ s.inbox) =
              ground arith in
            record {
              inbox = rw e.1 h.inbox;
              peers = rw e.0 (add_paired-IsValid I preferred id s.peers h.peers added.1);
            }
      ]

  pub redeem_invite-IsSound :
      (now : ℕ) (saved : Result (Unit {0})) (token : Text) (remote : EndpointId) (preferred : Text)
      (s : State I)
      → IsSound s
      → IsSound (redeem_invite I now saved token remote preferred s).1
  unfolding redeem_invite
  redeem_invite-IsSound now saved token remote preferred s h =
      let burnt = record s { invite = (take_invite now token s.invite).1 } in
      let g : IsSound burnt = record { inbox = h.inbox; peers = h.peers } in
      let f = record_peer-IsSound saved preferred remote burnt g in
      let after = redeem_invite I now saved token remote preferred s in
      let e : (after.1 ≡ burnt) ⊎ (after.1 ≡ (record_peer I saved preferred remote burnt).1) =
        ground arith in
      elim e [ inl a ↦ rw a g | inr a ↦ rw a f ]

  authorize-IsSound :
      (saved : Result (Unit {0})) (preferred : Text) (id : EndpointId) (s : State I)
      → IsSound s
      → IsSound (authorize I saved preferred id s).1
  unfolding authorize
  authorize-IsSound saved preferred id s h =
      elim (Result-cases (add_paired I preferred id s.peers)) [
        | inr bad ↦ let e : (authorize I saved preferred id s).1 ≡ s = ground arith in rw e h
        | inl added ↦
            let e : ((authorize I saved preferred id s).1.peers ≡ added.0.1)
                × ((authorize I saved preferred id s).1.inbox ≡ s.inbox) =
              ground arith in
            record {
              inbox = rw e.1 h.inbox;
              peers = rw e.0 (add_paired-IsValid I preferred id s.peers h.peers added.1);
            }
      ]

  revoke-IsSound :
      (known : Bool) (saved : Result (Unit {0})) (name : Text) (s : State I)
      → IsSound s
      → IsSound (revoke I known saved name s)
  unfolding revoke
  revoke-IsSound true saved name s h = h
  revoke-IsSound false saved name s h =
      let e : ((revoke I false saved name s).peers ≡ (remove name s.peers).1)
          × ((revoke I false saved name s).inbox ≡ s.inbox) =
        ground arith in
      record { inbox = rw e.1 h.inbox; peers = rw e.0 (remove-IsValid name s.peers h.peers) }

  joined-IsSound :
      (C : Codecs) (net : Attempt I × Attempt I) (stamp : Stamp) (introduction : Option Text)
      (known : Bool) (saved : Result (Unit {0})) (name my_name : Text) (result : Pending Text)
      (s : State I)
      → IsSound s
      → IsSound (joined I C net stamp introduction known saved name my_name result s).1
  unfolding joined
  joined-IsSound C net stamp introduction known saved name my_name stalled s h = h
  joined-IsSound C net stamp introduction known saved name my_name (finished (err e)) s h =
      revoke-IsSound known saved name s h
  joined-IsSound C net stamp introduction known saved name my_name (finished (ok _)) s h =
      send_kind-IsSound C net stamp (some name) hello (or_empty introduction) s h

  pub join-IsSound :
      (B : Base64) (C : Codecs) (w : World I) (raw_code my_name : Text) (introduction : Option Text)
      (s : State I)
      → IsSound s
      → IsSound (join I B C w raw_code my_name introduction s).1
  unfolding join join_inviter
  join-IsSound B C w raw_code my_name introduction s h =
      elim (Result-cases (prepare I B s.id raw_code my_name)) [
        | inr bad ↦
            let e : (join I B C w raw_code my_name introduction s).1 ≡ s = ground arith in rw e h
        | inl ready ↦
            let (code, mine, inviter) = ready.0 in
            let during = (authorize I w.saved code.name inviter s).1 in
            let g = authorize-IsSound w.saved code.name inviter s h in
            let known = is_known I (name_for I inviter s.peers) in
            elim (Result-cases (authorize I w.saved code.name inviter s).0) [
              | inr bad ↦
                  let e : (join I B C w raw_code my_name introduction s).1 ≡ during =
                    ground arith in
                  rw e g
              | inl r ↦
                  let result = perform_join C w.pairing code.token mine in
                  let e : (join I B C w raw_code my_name introduction s).1
                      ≡ (joined I C w.net w.stamp introduction known w.saved_again r.0.0 mine result
                          during).1 =
                    ground arith in
                  rw e (
                    joined-IsSound C w.net w.stamp introduction known w.saved_again r.0.0 mine
                      result during g)
            ]
      ]
