-- ===== src/Daemon/Handle/Runs.antt =====
-- Runs of the daemon of src/daemon.rs: requests, incoming messages and pairings in any order.
use agent2agent.Base.{
  ℕ, ◌≡◌, refl, ◌⊎◌, inl, inr, Option, none, some, List, [], ◌∷◌, arith, Text, nat_eq, text_eq,
  Option-cases, All, Result, ok, err, Result-cases,
}
use agent2agent.Config.Iroh.{Iroh}
use agent2agent.Config.Peers.{Peers}
use agent2agent.Config.Peers.Invariant.{IsValid}
use agent2agent.Daemon.{State}
use agent2agent.Daemon.Deliver.{Attempt, Codecs}
use agent2agent.Daemon.Handle.{Env, handle}
use agent2agent.Daemon.Handle.Requests.{asked-IsSound}
use agent2agent.Daemon.Handle.Kept.{IsSound, send_kind-IsSound, redeem_invite-IsSound}
use agent2agent.Daemon.Invite.{redeem_invite, handle_pairing, open_conversation, or_empty}
use agent2agent.Daemon.Send.{
  Stamp, handle_stream, on_stream, received, heard, end_of_conversation, queued,
}
use agent2agent.Inbox.Bounds.{push-IsPushed}
use agent2agent.Ipc.{Request}
use agent2agent.Inbox.{push}
use agent2agent.Pairing.Base64.{Base64}
use agent2agent.Wire.{Kind, msg, hello, bye, WireMsg}
use agent2agent.Wire.Json.{read_json}
use agent2agent.Wire.Frame.Stream.{Reader}

module _ (I : Iroh) (B : Base64) (C : Codecs) where
  open I use {EndpointId}

  -- What happens to a daemon, with what the system does meanwhile.
  pub data Event : Type 0 where
    asked : Env I → Request → Event
    streamed : Result (Unit {0}) → Text → Reader → Event
    called :
        ℕ
        → Result (Unit {0})
        → Result (Unit {0})
        → Attempt I × Attempt I
        → Stamp
        → EndpointId
        → Reader
        → Event

  unfoldable pub perform : Event → State I → State I
  perform (asked env request) s = (handle I B C env request s).1
  perform (streamed written name recv) s = (handle_stream I C written name recv s).state
  perform (called now saved written net stamp remote recv) s =
      (handle_pairing I C now saved written net stamp remote recv s).state

  unfoldable pub run : List Event → State I → State I
  run [] s = s
  run (e ∷ events) s = run events (perform e s)

  -- A list of peers that is read from the file is well formed.
  abbrev pub LoadsValid : Event → Type 0
  LoadsValid (asked env request) = (p : Peers) → env.loaded ≡ ok p → IsValid p
  LoadsValid (streamed _ _ _) = Unit
  LoadsValid (called _ _ _ _ _ _ _) = Unit

  heard-same :
      (kind : Kind) (name : Text) (s : State I)
      → ((heard I C kind name s).inbox ≡ s.inbox) × ((heard I C kind name s).peers ≡ s.peers)
  unfolding heard end_of_conversation
  heard-same msg name s = (refl, refl)
  heard-same hello name s = (refl, refl)
  heard-same bye name s = (refl, refl)

  received-IsSound :
      (written : Result (Unit {0})) (name : Text) (m : WireMsg) (s : State I)
      → IsSound I s
      → IsSound I (received I C written name m s).state
  unfolding received
  received-IsSound written name m s h =
      let present = heard I C m.kind name s in
      let (a, b) = heard-same m.kind name s in
      let after = (received I C written name m s).state in
      let e : (after ≡ s)
          ⊎ ((after.inbox ≡ (push (queued I C name m) present.inbox).1)
              × (after.peers ≡ present.peers)) =
        ground arith in
      elim e [
        | inl x ↦ rw x h
        | inr x ↦ record {
          inbox = rw (x.0, a) ((push-IsPushed (queued I C name m) s.inbox h.inbox).bounded);
          peers = rw (x.1, b) h.peers;
        }
      ]

  streamed-IsSound :
      (written : Result (Unit {0})) (name : Text) (got : Result (Option WireMsg × Reader))
      (s : State I)
      → IsSound I s
      → IsSound I (on_stream I C written name got s).state
  unfolding on_stream
  streamed-IsSound written name (err e) s h = h
  streamed-IsSound written name (ok (none, _)) s h = h
  streamed-IsSound written name (ok (some m, _)) s h = received-IsSound written name m s h

  opened-IsSound :
      (net : Attempt I × Attempt I) (stamp : Stamp) (r : Result (Text × Text × Option Text))
      (s : State I)
      → IsSound I s
      → IsSound I (open_conversation I C net stamp r s)
  unfolding open_conversation
  opened-IsSound net stamp (err e) s h = h
  opened-IsSound net stamp (ok (my_name, name, greeting)) s h =
      send_kind-IsSound I C net stamp (some name) hello (or_empty greeting) s h

  called-IsSound :
      (now : ℕ) (saved written : Result (Unit {0})) (net : Attempt I × Attempt I) (stamp : Stamp)
      (remote : EndpointId) (recv : Reader) (s : State I)
      → IsSound I s
      → IsSound I (handle_pairing I C now saved written net stamp remote recv s).state
  unfolding handle_pairing
  called-IsSound now saved written net stamp remote recv s h =
      let after = (handle_pairing I C now saved written net stamp remote recv s).state in
      let same : after ≡ s → IsSound I after = λ e. rw e h in
      elim (Result-cases (read_json C.join_request recv)) [
        | inr bad ↦ same (ground arith)
        | inl got ↦ elim (Option-cases got.0.0) [
          | inl nothing ↦ same (ground arith)
          | inr request ↦
              let r = request.0 in
              let (result, during) = redeem_invite I now saved r.token remote r.name s in
              let g = redeem_invite-IsSound I now saved r.token remote r.name s h in
              let e : (after ≡ during) ⊎ (after ≡ open_conversation I C net stamp result during) =
                ground arith in
              elim e [ inl x ↦ rw x g | inr x ↦ rw x (opened-IsSound net stamp result during g) ]
        ]
      ]

  perform-IsSound : (e : Event) (s : State I) → LoadsValid e → IsSound I s → IsSound I (perform e s)
  unfolding perform handle_stream
  perform-IsSound (asked env request) s l h = asked-IsSound I B C env request s l h
  perform-IsSound (streamed written name recv) s l h =
      streamed-IsSound written name (read_json C.wire_msg recv) s h
  perform-IsSound (called now saved written net stamp remote recv) s l h =
      called-IsSound now saved written net stamp remote recv s h

  -- Whatever requests, messages and pairings come, and in whatever order, the inbox stays within its
  -- capacity and the list of peers well formed, where the lists that are loaded from the file are.
  pub run-IsSound :
      (events : List Event) (s : State I)
      → All LoadsValid events
      → IsSound I s
      → IsSound I (run events s)
  unfolding run
  run-IsSound [] s l h = h
  run-IsSound (e ∷ events) s l h = run-IsSound events (perform e s) l.1 (perform-IsSound e s l.0 h)
