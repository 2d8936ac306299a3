-- ===== src/Daemon/Join/Restores.antt =====
-- `join` of src/daemon.rs when it fails: nobody stays let in who was not before.
use agent2agent.Base.{
  ◌≡◌, refl, ap, ◌≢◌, inl, inr, false, Option, none, some, arith, Text, nat_eq, text_eq,
  Option-cases, Result, ok, err, Error, Result-cases,
}
use agent2agent.Base.Map
use agent2agent.Config.Iroh.{Iroh, IsLawful}
use agent2agent.Config.Peers.{EndpointAddr, Peers, add_paired, name_for, remove}
use agent2agent.Config.Peers.Authorization.{name_for-add_paired, name_for-remove}
use agent2agent.Config.Peers.Invariant.{IsValid}
use agent2agent.Config.Peers.Kept.{add_paired-IsValid}
use agent2agent.Config.Peers.Paired.{name_for-some}
use agent2agent.Daemon.{State}
use agent2agent.Daemon.Deliver.{Codecs, finished}
use agent2agent.Pairing.Base64.{Base64}
use agent2agent.Pairing.Code.{InviteCode}
use agent2agent.Daemon.Join.{
  World, join_inviter, joined, perform_join, address_of, authorize, revoke, is_known,
}

module _ (I : Iroh) (L : IsLawful I) where
  open I use {EndpointId, same}

  -- Adding a peer and removing it again leaves every id as it was, where its own was not known.
  pub name_for-undo :
      (preferred : Text) (id : EndpointId) (p q : Peers) (name : Text)
      → IsValid p
      → add_paired I preferred id p ≡ ok (name, q)
      → name_for I id p ≡ none
      → (other : EndpointId) → name_for I other (remove name q).1 ≡ name_for I other p
  name_for-undo preferred id p q name valid h stranger other =
      let (known, others, _, new) = name_for-add_paired I L preferred id p valid name q h in
      let gone = name_for-remove I q other name (add_paired-IsValid I preferred id p valid h) in
      elim (same other id) [
        | yes e ↦
            let at = ap (λ o. name_for I o q) e in
            let before = ap (λ o. name_for I o p) e in
            ground (arith, gone, at, before, known, stranger)
        | no n ↦ elim (Option-cases (name_for I other p)) [
          | inl nothing ↦ ground (arith, gone, others other n, nothing)
          | inr found ↦
              let (peer, there, _) = name_for-some I other p found.0 valid.sorted found.1 in
              let differs : found.0 ≢ name =
                λ e. cc (new stranger, there, ap (λ k. Map.get k p.peers) e) in
              ground (arith, gone, others other n, found.1, differs)
        ]
      ]

  unknown : (o : Option Text) → is_known I o ≡ false → o ≡ none
  unknown none h = refl
  unknown (some k) h = cc

  -- A failed attempt that had let in the inviter anew lets in nobody who was not let in before.
  revoke-undoes :
      (saved : Result (Unit {0})) (preferred : Text) (id : EndpointId) (s during : State I)
      (name : Text) (q : Peers)
      → IsValid s.peers
      → add_paired I preferred id s.peers ≡ ok (name, q)
      → during.peers ≡ q
      → name_for I id s.peers ≡ none
      → (other : EndpointId)
      → name_for I other (revoke I false saved name during).peers ≡ name_for I other s.peers
  unfolding revoke
  revoke-undoes saved preferred id s during name q valid h e stranger other =
      let undone = name_for-undo preferred id s.peers q name valid h stranger other in
      elim (Result-cases saved) [
        | inl fine ↦ rw fine.1 (rw e undone)
        | inr bad ↦ rw bad.1 (rw e undone)
      ]

  -- The state in which the inviter is called, where it comes to that.
  authorized :
      (saved : Result (Unit {0})) (preferred : Text) (id : EndpointId) (s : State I)
      (r : Text × EndpointAddr I)
      → (authorize I saved preferred id s).0 ≡ ok r
      → (q : Peers) × (add_paired I preferred id s.peers ≡ ok (r.0, q))
        × ((authorize I saved preferred id s).1.peers ≡ q)
  unfolding authorize address_of
  authorized saved preferred id s r h = elim (Result-cases (add_paired I preferred id s.peers)) [
    | inr bad ↦ ground arith
    | inl added ↦ elim (Result-cases saved) [
      | inr bad ↦ ground arith
      | inl fine ↦ (added.0.1, ground arith, ground arith)
    ]
  ]

  module _ (B : Base64) (C : Codecs) (w : World I) (introduction : Option Text) (code : InviteCode)
      (my_name : Text) (inviter : EndpointId) (s : State I) (r : Text × EndpointAddr I)
      (e : Error) where
    abbrev during : State I
    during = (authorize I w.saved code.name inviter s).1

    failed_join :
        (authorize I w.saved code.name inviter s).0 ≡ ok r
        → perform_join C w.pairing code.token my_name ≡ finished (err e)
        → let known = is_known I (name_for I inviter s.peers) in
          join_inviter I B C w introduction (code, my_name, inviter) s
          ≡ (finished (err e), revoke I known w.saved_again r.0 during)
    unfolding join_inviter joined
    failed_join a f = ground (arith, a, f)

    -- Where the list is well formed, the inviter was not on it and is let in for a join that then
    -- fails, the join reports that failure, and afterwards every id is let in, and by the name, as
    -- before.
    pub join_inviter-restores :
        IsValid s.peers
        → name_for I inviter s.peers ≡ none
        → (authorize I w.saved code.name inviter s).0 ≡ ok r
        → perform_join C w.pairing code.token my_name ≡ finished (err e)
        → let after = join_inviter I B C w introduction (code, my_name, inviter) s in
          (after.0 ≡ finished (err e))
          × ((other : EndpointId) → name_for I other after.1.peers ≡ name_for I other s.peers)
    join_inviter-restores valid stranger a f =
        let (q, added, is) = authorized w.saved code.name inviter s r a in
        rw (failed_join a f) (
          refl,
          rw stranger (
              revoke-undoes w.saved_again code.name inviter s during r.0 q valid added is stranger),
        )
