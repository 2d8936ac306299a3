-- ===== src/Daemon/Send/Sent.antt =====
-- `send_kind` of src/daemon.rs: what a success is worth, and whom it refuses to write to.
use agent2agent.Base.{
  ◌≡◌, refl, inl, inr, true, false, ◌&&◌, Option, [], ◌∷◌, arith, Text, nat_eq, text_eq, ok, err,
  Result-cases, no_acknowledgement,
}
use agent2agent.Config.Iroh.{Iroh}
use agent2agent.Config.Peers.{EndpointAddr}
use agent2agent.Daemon.{State}
use agent2agent.Daemon.Deliver.{Attempt, Codecs, Pending, attempts}
use agent2agent.Daemon.Send.{
  Stamp, send_kind, dispatched, addressee, announced, concluded, is_msg, has_departed,
}
use agent2agent.Daemon.Deliver.Reached.{WentOver, attempts-WentOver}
use agent2agent.Daemon.Send.{end_of_conversation}
use agent2agent.Wire.{Kind, of_kind}

module _ (I : Iroh) (C : Codecs) where
  -- The peer was found, was not known to be gone where the message is an ordinary one, and has
  -- acknowledged the message whose id is returned.
  pub record IsSent (net : Attempt I × Attempt I) (stamp : Stamp) (peer : Option Text) (kind : Kind)
      (body : Text) (s : State I) (result : Text × Text) (after : State I) : Type 0 where
    pub addr : EndpointAddr I
    pub found : addressee I C peer s.peers ≡ ok (result.0, addr)
    pub present : is_msg kind ≡ true → has_departed I C result.0 s ≡ false
    pub id : result.1 ≡ (of_kind stamp.random stamp.clock kind body).id
    pub over :
        WentOver I C
          (net.0 ∷ net.1 ∷ [])
          addr
          s.connections
          after.connections
          (of_kind stamp.random stamp.clock kind body)

  concluded-ok :
      (name id : Text) (p : Pending (Unit {0})) (r : Text × Text)
      → concluded I C name id p ≡ ok r
      → (p ≡ Pending.finished (ok tt)) × (r ≡ (name, id))
  unfolding concluded
  concluded-ok name id Pending.stalled r h = cc
  concluded-ok name id (Pending.finished (ok u)) r h = (refl, cc)
  concluded-ok name id (Pending.finished (err e)) r h = cc

  announced-connections :
      (kind : Kind) (name : Text) (s : State I)
      → (announced I C kind name s).connections ≡ s.connections
  unfolding announced end_of_conversation
  announced-connections Kind.msg name s = refl
  announced-connections Kind.hello name s = refl
  announced-connections Kind.bye name s = refl

  dispatched-delivers :
      (net : Attempt I × Attempt I) (stamp : Stamp) (kind : Kind) (body : Text) (s : State I)
      (name : Text) (addr : EndpointAddr I)
      → (is_msg kind && has_departed I C name s) ≡ false
      → (dispatched I C net stamp kind body (name, addr) s).1.connections
        ≡ (attempts I C
            (net.0 ∷ net.1 ∷ [])
            no_acknowledgement
            addr
            (of_kind stamp.random stamp.clock kind body)
            s.connections).1
  unfolding dispatched
  dispatched-delivers net stamp kind body s name addr here =
      rw here (rw (announced-connections kind name s) refl)

  dispatched-IsSent :
      (net : Attempt I × Attempt I) (stamp : Stamp) (peer : Option Text) (kind : Kind) (body : Text)
      (s : State I) (name : Text) (addr : EndpointAddr I) (r : Text × Text)
      → addressee I C peer s.peers ≡ ok (name, addr)
      → (dispatched I C net stamp kind body (name, addr) s).0 ≡ ok r
      → IsSent net stamp peer kind body s r (dispatched I C net stamp kind body (name, addr) s).1
  unfolding dispatched
  dispatched-IsSent net stamp peer kind body s name addr r found h =
      let m = of_kind stamp.random stamp.clock kind body in
      let conns = (announced I C kind name s).connections in
      let kept = announced-connections kind name s in
      let ended : (is_msg kind && has_departed I C name s ≡ false)
          × (concluded I C name m.id
                (attempts I C (net.0 ∷ net.1 ∷ []) no_acknowledgement addr m conns).0
              ≡ ok r) =
        ground arith in
      let (done_, is) = concluded-ok name m.id _ r ended.1 in
      rw is (record {
        addr = addr;
        found = found;
        present = λ e. ground arith;
        id = refl;
        over = rw (dispatched-delivers net stamp kind body s name addr ended.0) (
            attempts-WentOver I C (net.0 ∷ net.1 ∷ []) no_acknowledgement addr m s.connections
              (rw kept at done_));
      })

  -- A send that succeeds found the peer that was meant, who was not known to be gone where the
  -- message is an ordinary one. In one of the two attempts it went over a connection that is kept for
  -- the id of that peer, one that was kept for it before or that dialling the peer's address gave,
  -- and on that connection came back an acknowledgement that says the message was accepted.
  pub send_kind-IsSent :
      (net : Attempt I × Attempt I) (stamp : Stamp) (peer : Option Text) (kind : Kind) (body : Text)
      (s : State I) (r : Text × Text)
      → (send_kind I C net stamp peer kind body s).0 ≡ ok r
      → IsSent net stamp peer kind body s r (send_kind I C net stamp peer kind body s).1
  unfolding send_kind
  send_kind-IsSent net stamp peer kind body s r h =
      elim (Result-cases (addressee I C peer s.peers)) [
        | inr bad ↦ ground arith
        | inl found ↦
            let to : send_kind I C net stamp peer kind body s
                ≡ dispatched I C net stamp kind body found.0 s =
              ground (arith, found.1) in
            rw to (
              dispatched-IsSent net stamp peer kind body s found.0.0 found.0.1 r found.1
                (ground arith))
      ]
