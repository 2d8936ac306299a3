-- ===== src/Daemon/Handle/Grant.antt =====
-- The grant of `auto` in src/daemon.rs: who can give it, and what takes it back.
use agent2agent.Base.{
  ℕ, ◌≡◌, ◌∙◌, inl, inr, Bool, true, false, Option, none, some, List, [], ◌∷◌, arith, Text, nat_eq,
  text_eq, Option-cases, All, Result, ok, err, Result-cases,
}
use agent2agent.Config.Iroh.{Iroh}
use agent2agent.Config.Mode.{manual}
use agent2agent.Config.Peers.{name_for, resolve}
use agent2agent.Daemon.{State}
use agent2agent.Daemon.Deliver.{Attempt, Codecs, Pending, stalled, finished}
use agent2agent.Daemon.Handle.{Env, handle, handle_send, send_to, handle_recv, reload_peers}
use agent2agent.Daemon.Handle.Runs.{Event, asked, streamed, called, perform, run}
use agent2agent.Daemon.Invite.{
  create_invite, redeem_invite, record_peer, handle_pairing, open_conversation, or_empty,
}
use agent2agent.Daemon.Join.{
  World, join, join_inviter, joined, authorize, revoke, prepare, perform_join, is_known,
}
use agent2agent.Daemon.Send.{
  Stamp, send_kind, dispatched, announced, handle_stream, on_stream, received, heard,
  end_of_conversation,
}
use agent2agent.Ipc.{Request}
use agent2agent.Pairing.Base64.{Base64}
use agent2agent.Wire.{Kind, msg, hello, bye, WireMsg}
use agent2agent.Daemon.Join.{prepare, perform_join, is_known}
use agent2agent.Config.Peers.{name_for, resolve}
use agent2agent.Wire.Json.{read_json}
use agent2agent.Wire.Frame.Stream.{Reader}

module _ (I : Iroh) (C : Codecs) where
  open I use {EndpointId}

  sent-manual :
      (net : Attempt I × Attempt I) (stamp : Stamp) (peer : Option Text) (kind : Kind) (body : Text)
      (s : State I)
      → s.mode ≡ manual
      → (send_kind I C net stamp peer kind body s).1.mode ≡ manual
  unfolding send_kind dispatched announced end_of_conversation
  sent-manual net stamp peer msg body s h = ground arith
  sent-manual net stamp peer hello body s h = ground arith
  sent-manual net stamp peer bye body s h = ground arith

  heard-manual :
      (written : Result (Unit {0})) (name : Text) (got : Result (Option WireMsg × Reader))
      (s : State I)
      → s.mode ≡ manual
      → (on_stream I C written name got s).state.mode ≡ manual
  unfolding on_stream received heard end_of_conversation
  heard-manual written name (err e) s h = h
  heard-manual written name (ok (none, _)) s h = h
  heard-manual written name (ok (some m, _)) s h = ground arith

  redeemed-mode :
      (now : ℕ) (saved : Result (Unit {0})) (token : Text) (remote : EndpointId) (preferred : Text)
      (s : State I)
      → (redeem_invite I now saved token remote preferred s).1.mode ≡ s.mode
  unfolding redeem_invite record_peer
  redeemed-mode now saved token remote preferred s = ground arith

  opened-manual :
      (net : Attempt I × Attempt I) (stamp : Stamp) (r : Result (Text × Text × Option Text))
      (s : State I)
      → s.mode ≡ manual
      → (open_conversation I C net stamp r s).mode ≡ manual
  unfolding open_conversation
  opened-manual net stamp (err e) s h = h
  opened-manual net stamp (ok (my_name, name, greeting)) s h =
      sent-manual net stamp (some name) hello (or_empty greeting) s h

  called-manual :
      (now : ℕ) (saved written : Result (Unit {0})) (net : Attempt I × Attempt I) (stamp : Stamp)
      (remote : EndpointId) (recv : Reader) (s : State I)
      → s.mode ≡ manual
      → (handle_pairing I C now saved written net stamp remote recv s).state.mode ≡ manual
  unfolding handle_pairing
  called-manual now saved written net stamp remote recv s h =
      elim (Result-cases (read_json C.join_request recv)) [
        | inr bad ↦ ground arith
        | inl got ↦ elim (Option-cases got.0.0) [
          | inl nothing ↦ ground arith
          | inr request ↦
              let r = request.0 in
              let (result, during) = redeem_invite I now saved r.token remote r.name s in
              let m = redeemed-mode now saved r.token remote r.name s ∙ h in
              ground (arith, m, opened-manual net stamp result during m)
        ]
      ]

  joined-manual :
      (net : Attempt I × Attempt I) (stamp : Stamp) (introduction : Option Text) (known : Bool)
      (saved : Result (Unit {0})) (name my_name : Text) (result : Pending Text) (s : State I)
      → s.mode ≡ manual
      → (joined I C net stamp introduction known saved name my_name result s).1.mode ≡ manual
  unfolding joined revoke
  joined-manual net stamp introduction known saved name my_name stalled s h = h
  joined-manual net stamp introduction true saved name my_name (finished (err e)) s h = h
  joined-manual net stamp introduction false saved name my_name (finished (err e)) s h =
      ground arith
  joined-manual net stamp introduction known saved name my_name (finished (ok _)) s h =
      sent-manual net stamp (some name) hello (or_empty introduction) s h

  authorized-mode :
      (saved : Result (Unit {0})) (preferred : Text) (id : EndpointId) (s : State I)
      → (authorize I saved preferred id s).1.mode ≡ s.mode
  unfolding authorize
  authorized-mode saved preferred id s = ground arith

module _ (I : Iroh) (B : Base64) (C : Codecs) where
  join-manual :
      (w : World I) (raw_code my_name : Text) (introduction : Option Text) (s : State I)
      → s.mode ≡ manual
      → (join I B C w raw_code my_name introduction s).1.mode ≡ manual
  unfolding join join_inviter
  join-manual w raw_code my_name introduction s h =
      elim (Result-cases (prepare I B s.id raw_code my_name)) [
        | inr bad ↦ ground arith
        | inl ready ↦
            let (code, mine, inviter) = ready.0 in
            let during = (authorize I w.saved code.name inviter s).1 in
            let m = authorized-mode I C w.saved code.name inviter s ∙ h in
            elim (Result-cases (authorize I w.saved code.name inviter s).0) [
              | inr bad ↦ ground (arith, m)
              | inl r ↦
                  let last =
                    joined-manual I C w.net w.stamp introduction
                      (is_known I (name_for I inviter s.peers)) w.saved_again r.0.0 mine
                      (perform_join C w.pairing code.token mine) during m in
                  ground (arith, m, last)
            ]
      ]

  abbrev pub is_mode_request : Event I B C → Bool
  is_mode_request (asked env (Request.mode set)) = true
  is_mode_request _ = false

  asked-manual :
      (env : Env I) (request : Request) (s : State I)
      → is_mode_request (asked env request) ≡ false
      → s.mode ≡ manual
      → (handle I B C env request s).1.mode ≡ manual
  unfolding handle handle_send send_to handle_recv create_invite reload_peers
  asked-manual env (Request.send peer body kind confirmed) s n h =
      elim (Result-cases (resolve peer s.peers)) [
        | inr bad ↦ ground arith
        | inl found ↦
            ground (arith, sent-manual I C env.net env.stamp (some found.0.0) kind body s h)
      ]
  asked-manual env (Request.recv peer wait_ms) s n h = ground arith
  asked-manual env (Request.invite name greeting ttl) s n h = ground arith
  asked-manual env (Request.join code name greeting) s n h =
      join-manual env.joining code name greeting s h
  asked-manual env (Request.mode set) s n h = absurd (cc)
  asked-manual env Request.status s n h = h
  asked-manual env Request.shutdown s n h = h
  asked-manual env Request.reload s n h = ground arith

  perform-manual :
      (e : Event I B C) (s : State I)
      → is_mode_request e ≡ false
      → s.mode ≡ manual
      → (perform I B C e s).mode ≡ manual
  unfolding perform handle_stream
  perform-manual (asked env request) s n h = asked-manual env request s n h
  perform-manual (streamed written name recv) s n h =
      heard-manual I C written name (read_json C.wire_msg recv) s h
  perform-manual (called now saved written net stamp remote recv) s n h =
      called-manual I C now saved written net stamp remote recv s h

  -- While manual mode holds, nothing ends it but the operator's own request for a mode: no message
  -- of a peer, no pairing and no other request does, in whatever order they come.
  pub run-manual :
      (events : List (Event I B C)) (s : State I)
      → All (λ e. is_mode_request e ≡ false) events
      → s.mode ≡ manual
      → (run I B C events s).mode ≡ manual
  unfolding run
  run-manual [] s n h = h
  run-manual (e ∷ events) s n h =
      run-manual events (perform I B C e s) n.1 (perform-manual e s n.0 h)
