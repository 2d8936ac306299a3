-- ===== src/Daemon/Handle/Requests.antt =====
-- `handle` of src/daemon.rs request by request: the inbox and the list of peers stay sound.
use agent2agent.Base.{
  ℕ, ◌≡◌, ◌⊎◌, inl, inr, Bool, Option, none, some, arith, Text, nat_eq, text_eq, ok, Result-cases,
}
use agent2agent.Config.Iroh.{Iroh}
use agent2agent.Config.Peers.{Peers, resolve}
use agent2agent.Config.Peers.Invariant.{IsValid}
use agent2agent.Daemon.{State}
use agent2agent.Daemon.Deliver.{Codecs}
use agent2agent.Daemon.Handle.{
  Env, handle, handle_send, send_to, handle_recv, reload_peers, set_or_report_mode,
}
use agent2agent.Daemon.Handle.Kept.{IsSound, send_kind-IsSound, join-IsSound}
use agent2agent.Daemon.Invite.{create_invite}
use agent2agent.Daemon.Send.{send_kind}
use agent2agent.Inbox.Wait.{pop_wait, pop_wait-IsBounded}
use agent2agent.Ipc.{Request}
use agent2agent.Pairing.Base64.{Base64}
use agent2agent.Wire.{Kind}

module _ (I : Iroh) (B : Base64) (C : Codecs) where
  sent-IsSound :
      (env : Env I) (peer : Option Text) (body : Text) (kind : Kind) (confirmed : Bool)
      (s : State I)
      → IsSound I s
      → IsSound I (handle I B C env (Request.send peer body kind confirmed) s).1
  unfolding handle handle_send send_to
  sent-IsSound env peer body kind confirmed s h =
      let after = (handle I B C env (Request.send peer body kind confirmed) s).1 in
      elim (Result-cases (resolve peer s.peers)) [
        | inr bad ↦ let e : after ≡ s = ground arith in rw e h
        | inl found ↦
            let sent = (send_kind I C env.net env.stamp (some found.0.0) kind body s).1 in
            let e : (after ≡ s) ⊎ (after ≡ sent) = ground arith in
            elim e [
              | inl x ↦ rw x h
              | inr x ↦
                  rw x (send_kind-IsSound I C env.net env.stamp (some found.0.0) kind body s h)
            ]
      ]

  received_by-IsSound :
      (env : Env I) (peer : Option Text) (wait_ms : ℕ) (s : State I)
      → IsSound I s
      → IsSound I (handle I B C env (Request.recv peer wait_ms) s).1
  unfolding handle handle_recv
  received_by-IsSound env peer wait_ms s h =
      let after = (handle I B C env (Request.recv peer wait_ms) s).1 in
      let e : (after ≡ s) ⊎ (after ≡ record s { inbox = (pop_wait env.turns peer s.inbox).1 }) =
        ground arith in
      elim e [
        | inl x ↦ rw x h
        | inr x ↦
            rw x (record {
              inbox = pop_wait-IsBounded env.turns peer s.inbox h.inbox;
              peers = h.peers;
            })
      ]

  pub asked-IsSound :
      (env : Env I) (request : Request) (s : State I)
      → ((p : Peers) → env.loaded ≡ ok p → IsValid p)
      → IsSound I s
      → IsSound I (handle I B C env request s).1
  unfolding handle create_invite set_or_report_mode reload_peers
  asked-IsSound env (Request.send peer body kind confirmed) s l h =
      sent-IsSound env peer body kind confirmed s h
  asked-IsSound env (Request.recv peer wait_ms) s l h = received_by-IsSound env peer wait_ms s h
  asked-IsSound env (Request.invite name greeting ttl) s l h =
      let after = (handle I B C env (Request.invite name greeting ttl) s).1 in
      let e : (after.inbox ≡ s.inbox) × (after.peers ≡ s.peers) = ground arith in
      record { inbox = rw e.0 h.inbox; peers = rw e.1 h.peers }
  asked-IsSound env (Request.join code name greeting) s l h =
      join-IsSound I B C env.joining code name greeting s h
  asked-IsSound env (Request.mode none) s l h = h
  asked-IsSound env (Request.mode (some raw)) s l h =
      let after = (handle I B C env (Request.mode (some raw)) s).1 in
      let e : (after.inbox ≡ s.inbox) × (after.peers ≡ s.peers) = ground arith in
      record { inbox = rw e.0 h.inbox; peers = rw e.1 h.peers }
  asked-IsSound env Request.status s l h = h
  asked-IsSound env Request.shutdown s l h = record { inbox = h.inbox; peers = h.peers }
  asked-IsSound env Request.reload s l h = elim (Result-cases env.loaded) [
    | inl p ↦ rw p.1 (record { inbox = h.inbox; peers = l p.0 p.1 })
    | inr bad ↦ rw bad.1 h
  ]
