-- ===== src/Daemon/Send/Heard.antt =====
-- `handle_stream` of src/daemon.rs: what is acknowledged is queued, and what a peer's message says
-- of its presence.
use agent2agent.Base.{
  ◌≡◌, refl, ◌≢◌, inl, inr, Bool, true, false, Option, none, some, arith, if◌then◌else◌, Text, ◌==◌,
  nat_eq, text_eq, Bool-cases, Result, ok, err, ◌>>◌, is_ok, Error, unsupported_version,
}
use agent2agent.Base.Map
use agent2agent.Base.Map.Laws.{get-insert, get-remove}
use agent2agent.Config.Iroh.{Iroh}
use agent2agent.Config.Mode.{manual}
use agent2agent.Daemon.{State}
use agent2agent.Daemon.Deliver.{Codecs}
use agent2agent.Daemon.Send.{
  Served, handle_stream, on_stream, received, heard, queued, refusal, acknowledge,
  end_of_conversation, has_departed,
}
use agent2agent.Inbox.{Message, push}
use agent2agent.Inbox.Bounds.{IsBounded, IsPushed, push-IsPushed}
use agent2agent.Wire.{Kind, msg, hello, bye, WireMsg, protocol_version, ack_ok}
use agent2agent.Wire.Json.{read_json}
use agent2agent.Wire.Frame.Stream.{Reader}

abbrev pub is_bye : Kind → Bool
is_bye bye = true
is_bye msg = false
is_bye hello = false

then_fails : (r : Result (Unit {0})) (e : Error) → is_ok {A = Unit {0}} (r >> err e) ≡ false
then_fails (ok a) e = refl
then_fails (err f) e = refl

module _ (I : Iroh) (C : Codecs) where
  -- Nothing else than who is there, the mode and the inbox has changed.
  pub record IsHeard (name : Text) (m : WireMsg) (s s' : State I) : Type 0 where
    pub evicted : Option Message
    pub pushed : IsPushed (queued I C name m) s.inbox (evicted, s'.inbox)
    pub presence : has_departed I C name s' ≡ is_bye m.kind
    pub others : (k : Text) → k ≢ name → has_departed I C k s' ≡ has_departed I C k s
    pub mode : s'.mode ≡ (if is_bye m.kind then manual else s.mode)
    pub rest :
        (s'.peers ≡ s.peers)
        × (s'.invite ≡ s.invite)
        × (s'.connections ≡ s.connections)
        × (s'.on_disk ≡ s.on_disk)

  heard-IsHeard :
      (name : Text) (m : WireMsg) (kind : Kind) (s : State I)
      → m.kind ≡ kind
      → IsBounded s.inbox
      → let present = heard I C kind name s in
        IsHeard name m s (record present { inbox = (push (queued I C name m) present.inbox).1 })
  unfolding heard has_departed end_of_conversation Map.contains_key
  heard-IsHeard name m msg s e b = record {
    evicted = (push (queued I C name m) s.inbox).0;
    pushed = push-IsPushed (queued I C name m) s.inbox b;
    presence = rw e (ground (arith, get-remove name name s.departed));
    others = λ k n. ground (arith, get-remove name k s.departed);
    mode = rw e refl;
    rest = (refl, refl, refl, refl);
  }
  heard-IsHeard name m hello s e b = record {
    evicted = (push (queued I C name m) s.inbox).0;
    pushed = push-IsPushed (queued I C name m) s.inbox b;
    presence = rw e (ground (arith, get-remove name name s.departed));
    others = λ k n. ground (arith, get-remove name k s.departed);
    mode = rw e refl;
    rest = (refl, refl, refl, refl);
  }
  heard-IsHeard name m bye s e b = record {
    evicted = (push (queued I C name m) s.inbox).0;
    pushed = push-IsPushed (queued I C name m) s.inbox b;
    presence = rw e (ground (arith, get-insert name name tt s.departed));
    others = λ k n. ground (arith, get-insert name k tt s.departed);
    mode = rw e refl;
    rest = (refl, refl, refl, refl);
  }

  -- What is known of a stream that was served, from what was read on it.
  abbrev pub HeardAs : Text → State I → Option WireMsg → Served I C → Type 0
  HeardAs name s none r = (r.answer ≡ none) × (r.state ≡ s)
  HeardAs name s (some m) r =
      (m.v ≡ protocol_version → (r.answer ≡ some ack_ok) × IsHeard name m s r.state)
      × (m.v ≢ protocol_version
          → (r.answer ≡ some (refusal I C m)) × (r.state ≡ s) × (is_ok r.outcome ≡ false))

  received-HeardAs :
      (written : Result (Unit {0})) (name : Text) (m : WireMsg) (s : State I)
      → IsBounded s.inbox
      → HeardAs name s (some m) (received I C written name m s)
  unfolding received
  received-HeardAs written name m s b = elim (Bool-cases (m.v == protocol_version)) [
    | inl same ↦
        rw same
          ((λ _. (refl, heard-IsHeard name m m.kind s refl b)), λ n. absurd (n (ground arith)))
    | inr other ↦ rw other (
      (λ e. absurd (ground arith)),
      λ n. (
        refl,
        refl,
        then_fails (acknowledge I C written (refusal I C m)) (unsupported_version m.v),
      ),
    )
  ]

  -- A stream that cannot be read, or holds nothing, changes nothing.
  abbrev pub HeardOn : Text → State I → Result (Option WireMsg × Reader) → Served I C → Type 0
  HeardOn name s (err e) r = (r.answer ≡ none) × (r.state ≡ s) × (r.outcome ≡ err e)
  HeardOn name s (ok (o, _)) r = HeardAs name s o r

  on_stream-HeardOn :
      (written : Result (Unit {0})) (name : Text) (got : Result (Option WireMsg × Reader))
      (s : State I)
      → IsBounded s.inbox
      → HeardOn name s got (on_stream I C written name got s)
  unfolding on_stream
  on_stream-HeardOn written name (err e) s b = (refl, refl, refl)
  on_stream-HeardOn written name (ok (none, _)) s b = (refl, refl)
  on_stream-HeardOn written name (ok (some m, _)) s b = received-HeardAs written name m s b

  -- Where the inbox is within its capacity, a message in the protocol's version is accepted exactly by being put at the end of the inbox;
  -- a goodbye marks its sender as gone and puts the operator back in the loop, and anything else
  -- marks its sender as there. A message in another version, and a stream without a message, is
  -- not accepted and changes nothing.
  pub handle_stream-HeardOn :
      (written : Result (Unit {0})) (name : Text) (recv : Reader) (s : State I)
      → IsBounded s.inbox
      → HeardOn name s (read_json C.wire_msg recv) (handle_stream I C written name recv s)
  unfolding handle_stream
  handle_stream-HeardOn written name recv s b =
      on_stream-HeardOn written name (read_json C.wire_msg recv) s b
