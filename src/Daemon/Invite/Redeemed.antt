-- ===== src/Daemon/Invite/Redeemed.antt =====
-- `redeem_invite` of src/daemon.rs: who gets in by an invite, and that it works once.
use agent2agent.Base.{
  ℕ, ◌<◌, ◌≡◌, refl, sym, ap, ◌≢◌, inl, inr, true, Option, none, some, arith, leb, Text, nat_eq,
  text_eq, Bool-cases, Result, ok, Result-cases,
}
use agent2agent.Config.Iroh.{Iroh, IsLawful}
use agent2agent.Config.Peers.{Peers, add_paired, name_for}
use agent2agent.Config.Peers.Authorization.{name_for-add_paired}
use agent2agent.Config.Peers.Invariant.{IsValid}
use agent2agent.Daemon.{State, PendingInvite}
use agent2agent.Daemon.Invite.{take_invite, record_peer, redeem_invite}
use agent2agent.Pairing.Token.{tokens_match}

-- An invite that the token opens at that time.
pub record Opens (now : ℕ) (token : Text) (slot : Option PendingInvite) (p : PendingInvite)
    : Type 0 where
  pub pending : slot ≡ some p
  pub in_time : now < p.expires_at
  pub matches : tokens_match p.token token ≡ true

take_invite-Opens :
    (now : ℕ) (token : Text) (slot : Option PendingInvite) (p : PendingInvite)
    → (take_invite now token slot).0 ≡ ok p
    → Opens now token slot p × ((take_invite now token slot).1 ≡ none)
unfolding take_invite
take_invite-Opens now token none p h = cc
take_invite-Opens now token (some q) p h = elim (Bool-cases (leb q.expires_at now)) [
  | inl late ↦ ground arith
  | inr in_time ↦ elim (Bool-cases (tokens_match q.token token)) [
    | inr differs ↦ ground arith
    | inl same ↦
        let e : q ≡ p = ground arith in
        (
          record {
            pending = ap some e;
            in_time = rw (sym e) (ground arith);
            matches = rw (sym e) same;
          },
          rw (in_time, same) refl,
        )
  ]
]

module _ (I : Iroh) where
  open I use {EndpointId}

  -- What a redeemed invite has done: it was open to the token, it is gone, the caller is known by
  -- the name that is returned, nobody else is known by another name than before, and the file holds
  -- the new list.
  pub record Redeemed (now : ℕ) (token : Text) (remote : EndpointId) (s : State I)
      (result : Text × Text × Option Text) (s' : State I) : Type 0 where
    pub invite : PendingInvite
    pub opens : Opens now token s.invite invite
    pub burnt : s'.invite ≡ none
    pub ours : (result.0 ≡ invite.my_name) × (result.2 ≡ invite.greeting)
    pub known : name_for I remote s'.peers ≡ some result.1
    pub others :
        (other : EndpointId) → other ≢ remote → name_for I other s'.peers ≡ name_for I other s.peers
    pub filed : s'.on_disk ≡ s'.peers

  redeemed_state :
      (now : ℕ) (saved : Result (Unit {0})) (token : Text) (remote : EndpointId) (preferred : Text)
      (s : State I) (p : PendingInvite) (added : Text × Peers) (u : Unit {0})
      → (take_invite now token s.invite).0 ≡ ok p
      → add_paired I preferred remote s.peers ≡ ok added
      → saved ≡ ok u
      → redeem_invite I now saved token remote preferred s ≡ (
        ok (p.my_name, added.0, p.greeting),
        record s {
          invite = (take_invite now token s.invite).1;
          peers = added.1;
          on_disk = added.1;
        },
      )
  unfolding redeem_invite record_peer
  redeemed_state now saved token remote preferred s p added u took filed fine = ground arith

  parts_ok :
      (now : ℕ) (saved : Result (Unit {0})) (token : Text) (remote : EndpointId) (preferred : Text)
      (s : State I) (result : Text × Text × Option Text)
      → (redeem_invite I now saved token remote preferred s).0 ≡ ok result
      → ((p : PendingInvite) × ((take_invite now token s.invite).0 ≡ ok p))
        × ((a : Text × Peers) × (add_paired I preferred remote s.peers ≡ ok a))
        × ((u : Unit {0}) × (saved ≡ ok u))
  unfolding redeem_invite record_peer
  parts_ok now saved token remote preferred s result h =
      elim (Result-cases (take_invite now token s.invite).0) [
        | inr bad ↦ ground arith
        | inl took ↦ elim (Result-cases (add_paired I preferred remote s.peers)) [
          | inr bad ↦ ground arith
          | inl added ↦ elim (Result-cases saved) [
            | inr bad ↦ ground arith
            | inl fine ↦ (took, added, fine)
          ]
        ]
      ]

  -- On a well-formed list of peers, and where ids are read back from their text, an attempt that
  -- succeeds had the token of the invite that was open, in time. It burns the
  -- invite, and the caller and nobody else is let in anew, under the name that is returned.
  pub redeem_invite-Redeemed :
      IsLawful I
      → (now : ℕ) (saved : Result (Unit {0})) (token : Text) (remote : EndpointId)
        (preferred : Text) (s : State I) (result : Text × Text × Option Text)
      → IsValid s.peers
      → (redeem_invite I now saved token remote preferred s).0 ≡ ok result
      → Redeemed now token remote s result (redeem_invite I now saved token remote preferred s).1
  redeem_invite-Redeemed L now saved token remote preferred s result valid h =
      let (took, added, fine) = parts_ok now saved token remote preferred s result h in
      let e =
        redeemed_state now saved token remote preferred s took.0 added.0 fine.0 took.1 added.1
          fine.1 in
      let (opens, gone) = take_invite-Opens now token s.invite took.0 took.1 in
      let (known, others, _, _) =
        name_for-add_paired I L preferred remote s.peers valid added.0.0 added.0.1 added.1 in
      let made : result ≡ (took.0.my_name, added.0.0, took.0.greeting) = ground (arith, e) in
      rw e (
        rw made (record {
          invite = took.0;
          opens = opens;
          burnt = gone;
          ours = (refl, refl);
          known = known;
          others = others;
          filed = refl;
        }))
