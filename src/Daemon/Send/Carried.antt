-- ===== src/Daemon/Send/Carried.antt =====
-- Two daemons of src/daemon.rs: `send_kind` of the one over `handle_stream` of the other.
use mathlib.Core.Path.{subst}
use agent2agent.Base.{
  ℕ, ◌≡◌, refl, sym, ap, ◌∙◌, inl, inr, false, ◌&&◌, Option, some, List, [], ◌∷◌, append-nil, arith,
  Text, nat_eq, text_eq, Bool-cases, Option-cases, ok, Error, no_acknowledgement,
}
use agent2agent.Config.Iroh.{Iroh}
use agent2agent.Config.Peers.{EndpointAddr}
use agent2agent.Daemon.{State, Connections}
use agent2agent.Daemon.Deliver.{
  Attempt, Codecs, finished, attempts, deliver_once, read_ack, judge, connection_for,
  cached_connection, connection_to, connected, round, round_on, exchanged, returned,
}
use agent2agent.Daemon.Send.{
  Stamp, send_kind, dispatched, addressee, announced, concluded, is_msg, has_departed,
  handle_stream,
}
use agent2agent.Daemon.Send.Heard.{IsHeard, HeardOn, handle_stream-HeardOn}
use agent2agent.Inbox.Bounds.{IsBounded}
use agent2agent.Wire.{Kind, WireMsg, ack_ok, of_kind}
use agent2agent.Wire.Json.{Codec, write_json, read_json, read-write_json}
use agent2agent.Wire.Frame.Stream.{Reader, IsHealthy, bytes_of}

-- What is relied on of `serde_json`: a value that was written is read back.
abbrev pub ReadsBack : {A : Type 0} → Codec A → Type 0
ReadsBack {A} codec =
    (value : A) (bytes : List ℕ)
    → codec.to_vec value ≡ some bytes
    → codec.from_slice bytes ≡ some value

-- The stream carries the value, in whatever pieces, and does not fail.
pub record Carries {A : Type 0} (codec : Codec A) (value : A) (r : Reader) : Type 0 where
  pub frame : List ℕ
  pub printed : write_json codec value ≡ ok frame
  pub healthy : IsHealthy r
  pub bytes : bytes_of r ≡ frame

carried :
    {A : Type 0} (codec : Codec A) (value : A) (r : Reader)
    → ReadsBack codec
    → Carries codec value r
    → (r' : Reader) × (read_json codec r ≡ ok (some value, r'))
carried codec value r law c =
    let (r', got, _, _) =
      read-write_json codec law value c.frame [] r c.printed c.healthy
        (c.bytes ∙ sym (append-nil c.frame)) in
    (r', got)

-- The network works in an attempt: the peer can be reached, takes the message, and `reply` comes back.
pub record Works {I : Iroh} (net : Attempt I) (addr : EndpointAddr I) (reply : Reader)
    : Type 0 where
  pub number : ℕ
  pub connects : net.connect addr ≡ finished (ok number)
  pub opens : (connection : ℕ) → net.open_bi connection ≡ finished (ok tt)
  pub takes : net.written ≡ finished (ok tt)
  pub ends : net.finish ≡ ok tt
  pub answers : net.reply ≡ finished (ok reply)

module _ (I : Iroh) (C : Codecs) where
  open I use {EndpointId}

  acked :
      (net : Attempt I) (addr : EndpointAddr I) (m : WireMsg) (there here : Reader) (c : ℕ)
      → ReadsBack C.ack
      → Works net addr here
      → Carries C.wire_msg m there
      → Carries C.ack ack_ok here
      → deliver_once I C net c m ≡ finished (ok tt)
  unfolding deliver_once read_ack judge
  acked net addr m there here c law works sent_ back =
      let (r', got) = carried C.ack ack_ok here law back in
      rw (works.opens c, sent_.printed, works.takes, works.ends, works.answers, got) refl

  first_round :
      (net : Attempt I) (here : Reader) (addr : EndpointAddr I) (m : WireMsg)
      (conns : Connections I)
      → Works net addr here
      → ((c : ℕ) → deliver_once I C net c m ≡ finished (ok tt))
      → (round I C net addr m conns).0 ≡ returned (finished (ok tt))
  unfolding round round_on exchanged connection_for cached_connection connected
  first_round net here addr m conns works done_ =
      elim (Option-cases (connection_to I addr.id conns)) [
        | inl none_ ↦
            let new = works.connects in
            let took = done_ works.number in ground (arith, none_, new, took)
        | inr cached ↦ elim (Bool-cases (net.is_closed cached.0)) [
          | inl closed ↦
              let is = cached.1 in
              let new = works.connects in
              let took = done_ works.number in ground (arith, is, closed, new, took)
          | inr live ↦
              let is = cached.1 in let took = done_ cached.0 in ground (arith, is, live, took)
        ]
      ]

  one_attempt :
      (net : Attempt I) (nets : List (Attempt I)) (e : Error) (addr : EndpointAddr I) (m : WireMsg)
      (conns : Connections I)
      → (round I C net addr m conns).0 ≡ returned (finished (ok tt))
      → (attempts I C (net ∷ nets) e addr m conns).0 ≡ finished (ok tt)
  unfolding attempts
  one_attempt net nets e addr m conns first = ground (arith, first)

  sends :
      (net : Attempt I × Attempt I) (stamp : Stamp) (kind : Kind) (body name : Text)
      (addr : EndpointAddr I) (here : Reader) (a : State I)
      → Works net.0 addr here
      → ((c : ℕ)
          → deliver_once I C net.0 c (of_kind stamp.random stamp.clock kind body)
            ≡ finished (ok tt))
      → (is_msg kind && has_departed I C name a) ≡ false
      → (dispatched I C net stamp kind body (name, addr) a).0
        ≡ ok (name, (of_kind stamp.random stamp.clock kind body).id)
  unfolding dispatched concluded
  sends net stamp kind body name addr here a works done_ present =
      let m = of_kind stamp.random stamp.clock kind body in
      let conns = (announced I C kind name a).connections in
      let first = first_round net.0 here addr m conns works done_ in
      let all_ = one_attempt net.0 (net.1 ∷ []) no_acknowledgement addr m conns first in
      rw (present, all_) refl

  to_addressee :
      (net : Attempt I × Attempt I) (stamp : Stamp) (peer : Option Text) (kind : Kind)
      (body name : Text) (addr : EndpointAddr I) (a : State I)
      → addressee I C peer a.peers ≡ ok (name, addr)
      → send_kind I C net stamp peer kind body a ≡ dispatched I C net stamp kind body (name, addr) a
  unfolding send_kind
  to_addressee net stamp peer kind body name addr a found = ground (arith, found)

  -- From one daemon to the other. The addressee is known and not known to be gone, the network works
  -- on the first attempt, and carries the message to a daemon with an inbox within its capacity, in
  -- whatever pieces, and its acknowledgement back: then the send succeeds with the message's id, the
  -- other daemon has acknowledged it, and the message stands at the end of its inbox, under the name
  -- of the sender there.
  pub send_kind-IsHeard :
      (net : Attempt I × Attempt I) (stamp : Stamp) (peer : Option Text) (kind : Kind)
      (body name sender : Text) (addr : EndpointAddr I) (there here : Reader) (a b : State I)
      → ReadsBack C.wire_msg
      → ReadsBack C.ack
      → addressee I C peer a.peers ≡ ok (name, addr)
      → (is_msg kind && has_departed I C name a) ≡ false
      → Works net.0 addr here
      → Carries C.wire_msg (of_kind stamp.random stamp.clock kind body) there
      → Carries C.ack ack_ok here
      → IsBounded b.inbox
      → let m = of_kind stamp.random stamp.clock kind body in
        let served = handle_stream I C (ok tt) sender there b in
        ((send_kind I C net stamp peer kind body a).0 ≡ ok (name, m.id))
        × (served.answer ≡ some ack_ok)
        × IsHeard I C sender m b served.state
  send_kind-IsHeard net stamp peer kind body name sender addr there here a b wire ack found present
        works sent_ back bounded =
      let m = of_kind stamp.random stamp.clock kind body in
      let done_ = λ (c : ℕ). acked net.0 addr m there here c ack works sent_ back in
      let (r', got) = carried C.wire_msg m there wire sent_ in
      let heard_ : HeardOn I C sender b (ok (some m, r'))
          (handle_stream I C (ok tt) sender there b) =
        subst (λ x. HeardOn I C sender b x (handle_stream I C (ok tt) sender there b)) got
          (handle_stream-HeardOn I C (ok tt) sender there b bounded) in
      let (answered_, in_box) = heard_.0 (unfold of_kind in refl) in
      (
        ap (λ p. p.0) (to_addressee net stamp peer kind body name addr a found)
            ∙ (sends net stamp kind body name addr here a works done_ present),
        answered_,
        in_box,
      )
