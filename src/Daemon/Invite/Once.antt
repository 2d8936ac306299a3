-- ===== src/Daemon/Invite/Once.antt =====
-- `redeem_invite` of src/daemon.rs over any sequence of attempts: an invite is good for one pairing.
use agent2agent.Base.{
  ℕ, ◌+◌, ◌≤◌, ◌≡◌, refl, inl, inr, Option, none, List, [], ◌∷◌, arith, Text, nat_eq, text_eq,
  Result, ok, err, Result-cases, no_invite_open,
}
use agent2agent.Config.Iroh.{Iroh}
use agent2agent.Daemon.{State}
use agent2agent.Daemon.Invite.{take_invite, record_peer, redeem_invite}

module _ (I : Iroh) where
  open I use {EndpointId}

  -- One caller's attempt.
  pub record Try : Type 0 where
    pub now : ℕ
    pub saved : Result (Unit {0})
    pub token : Text
    pub remote : EndpointId
    pub preferred : Text

  abbrev pub redeem : Try → State I → Result (Text × Text × Option Text) × State I
  redeem t s = redeem_invite I t.now t.saved t.token t.remote t.preferred s

  abbrev pub one_if_ok {ℓ} : {A : Type ℓ} → Result A → ℕ
  one_if_ok (ok _) = 1
  one_if_ok (err _) = 0

  -- How many of the attempts, made one after another, succeed.
  unfoldable pub successes : List Try → State I → ℕ
  successes [] s = 0
  successes (t ∷ tries) s = one_if_ok (redeem t s).0 + successes tries (redeem t s).1

  -- No attempt opens an invite, and one that succeeds leaves none.
  redeem-slot :
      (t : Try) (s : State I)
      → (s.invite ≡ none → ((redeem t s).0 ≡ err no_invite_open) × ((redeem t s).1.invite ≡ none))
        × (one_if_ok (redeem t s).0 ≡ 1 → (redeem t s).1.invite ≡ none)
  unfolding redeem_invite record_peer take_invite
  redeem-slot t s = (λ h. rw h (refl, refl), λ h. ground arith)

  none-succeeds : (tries : List Try) (s : State I) → s.invite ≡ none → successes tries s ≡ 0
  unfolding successes
  none-succeeds [] s h = refl
  none-succeeds (t ∷ tries) s h =
      let (refused, closed) = (redeem-slot t s).0 h in
      rw refused (omega (arith, none-succeeds tries (redeem t s).1 closed))

  -- Of any attempts that are made after an invite was opened, by whoever and with whatever tokens,
  -- at most one succeeds until another invite is opened.
  pub successes-le : (tries : List Try) (s : State I) → successes tries s ≤ 1
  unfolding successes
  successes-le [] s = omega arith
  successes-le (t ∷ tries) s = elim (Result-cases (redeem t s).0) [
    | inr bad ↦ rw bad.1 (omega (arith, successes-le tries (redeem t s).1))
    | inl good ↦
        let closed = (redeem-slot t s).1 (rw good.1 refl) in
        omega (
          arith,
          let e : one_if_ok (redeem t s).0 ≡ 1 = rw good.1 refl in e,
          none-succeeds tries (redeem t s).1 closed,
        )
  ]
