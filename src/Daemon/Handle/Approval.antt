-- ===== src/Daemon/Handle/Approval.antt =====
-- Manual mode in `handle` of src/daemon.rs: nothing goes out that the operator has not approved.
use agent2agent.Base.{
  ◌≡◌, refl, sym, ap, ◌∙◌, ◌≢◌, ◌⊎◌, inl, inr, Bool, true, false, Option, some, arith, Text, nat_eq,
  text_eq, Bool-cases, ok, err, Error, Result-cases,
}
use agent2agent.Config.Iroh.{Iroh}
use agent2agent.Config.Mode.{Mode, auto, manual, is_manual}
use agent2agent.Config.Peers.{Peer, resolve}
use agent2agent.Daemon.{State}
use agent2agent.Daemon.Deliver.{Codecs}
use agent2agent.Daemon.Handle.{Env, handle, handle_send, send_to}
use agent2agent.Daemon.Send.{has_departed}
use agent2agent.Ipc.{Request, Response, answered, refused, sent, needs_approval, peer_gone}
use agent2agent.Pairing.Base64.{Base64}
use agent2agent.Wire.{Kind, msg, hello, bye}

module _ (I : Iroh) (B : Base64) (C : Codecs) (s : State I) where
  -- An ordinary message was confirmed, or the agents may talk without asking.
  abbrev pub IsApproved : Kind → Bool → Type 0
  IsApproved msg confirmed = (confirmed ≡ true) ⊎ (s.mode ≡ auto)
  IsApproved hello confirmed = Unit {0}
  IsApproved bye confirmed = Unit {0}

  -- The answer that is given without looking at the network, and which changes nothing.
  silent :
      (name body : Text)
      → s.mode ≡ manual
      → (quiet : Response) × ((peer id : Text) → quiet ≢ answered (sent peer id))
        × ((env : Env I) → send_to I B C env name body msg false s ≡ (quiet, s))
  unfolding send_to is_manual
  silent name body held = elim (Bool-cases (has_departed I C name s)) [
    | inl gone ↦ (answered (peer_gone name), λ peer id h. cc, λ env. rw gone refl)
    | inr here ↦ (answered (needs_approval name), λ peer id h. cc, λ env. rw here (rw held refl))
  ]

  handled :
      (env : Env I) (peer : Option Text) (body : Text) (kind : Kind) (confirmed : Bool)
      (r : Response × State I)
      → handle_send I B C env peer body kind confirmed s ≡ r
      → handle I B C env (Request.send peer body kind confirmed) s ≡ (some r.0, r.1)
  unfolding handle
  handled env peer body kind confirmed r e = ap (λ (r : Response × State I). (some r.0, r.1)) e

  unresolved :
      (env : Env I) (peer : Option Text) (body : Text) (kind : Kind) (confirmed : Bool) (e : Error)
      → resolve peer s.peers ≡ err e
      → handle_send I B C env peer body kind confirmed s ≡ (refused e, s)
  unfolding handle_send
  unresolved env peer body kind confirmed e h = ground (arith, h)

  resolved :
      (env : Env I) (peer : Option Text) (body : Text) (kind : Kind) (confirmed : Bool)
      (found : Text × Peer)
      → resolve peer s.peers ≡ ok found
      → handle_send I B C env peer body kind confirmed s
        ≡ send_to I B C env found.0 body kind confirmed s
  unfolding handle_send
  resolved env peer body kind confirmed found h = ground (arith, h)

  silent_for :
      (peer : Option Text) (body : Text)
      → s.mode ≡ manual
      → (quiet : Response) × ((name id : Text) → quiet ≢ answered (sent name id))
        × ((env : Env I) → handle I B C env (Request.send peer body msg false) s ≡ (some quiet, s))
  silent_for peer body held = elim (Result-cases (resolve peer s.peers)) [
    | inr bad ↦ (
      refused bad.0,
      λ name id h. cc,
      λ env.
          handled env peer body msg false (refused bad.0, s)
            (unresolved env peer body msg false bad.0 bad.1),
    )
    | inl found ↦
        let (quiet, other, is) = silent found.0.0 body held in
        (
          quiet,
          other,
          λ env.
              handled env peer body msg false (quiet, s)
                (resolved env peer body msg false found.0 found.1 ∙ is env),
        )
  ]

  -- In manual mode an ordinary message that was not confirmed goes nowhere, whoever it is for: the
  -- answer is the same whatever the network, the clock and the other tasks do, it is none that says
  -- the message was sent, and no state changes.
  pub handle_send-approval :
      (peer : Option Text) (body : Text) (env env' : Env I)
      → s.mode ≡ manual
      → let request = Request.send peer body msg false in
        (handle I B C env request s ≡ handle I B C env' request s)
        × ((handle I B C env request s).1 ≡ s)
        × ((name id : Text) → (handle I B C env request s).0 ≢ some (answered (sent name id)))
  handle_send-approval peer body env env' held =
      let (quiet, other, is) = silent_for peer body held in
      (
        is env ∙ sym (is env'),
        ap (λ (r : Option Response × State I). r.1) (is env),
        λ name id h.
            let answer = ap (λ (r : Option Response × State I). r.0) (is env) in
            let q : quiet ≡ answered (sent name id) = cc in other name id q,
      )
