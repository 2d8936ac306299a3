-- ===== src/Config/Peers/Resolve.antt =====
-- Which peer a command means.
use agent2agent.Base.{
  ◌≡◌, refl, inl, inr, Option, none, some, [], arith, Text, nat_eq, text_eq, Option-cases, Result,
  ok, err, no_peers, unknown_peer,
}
use agent2agent.Base.Map
use agent2agent.Config.Peers.{Peer, Peers, resolve, implied}
use agent2agent.Config.Peers.Invariant.{IsValid}

-- What `resolve` returns for a name on a valid list, and where no name is given.
abbrev pub Resolved : Option Text → Peers → Result (Text × Peer) → Type 0
Resolved name p (ok (chosen, peer)) =
    (Map.get chosen p.peers ≡ some peer)
    × ((n : Text) → name ≡ some n → chosen ≡ n)
    × (name ≡ none → p.default ≡ some chosen)
Resolved none p (err e) = (p.peers ≡ []) × (e ≡ no_peers)
Resolved (some n) p (err e) = (Map.get n p.peers ≡ none) × (e ≡ unknown_peer n)

-- On a valid list a peer that is named is the one that is meant, or is unknown. Where none is
-- named it is the default, and that fails only on an empty list: the source's case of several
-- peers and no default does not arise.
pub resolve-Resolved :
    (name : Option Text) (p : Peers) → IsValid p → Resolved name p (resolve name p)
unfolding resolve implied
resolve-Resolved (some n) p valid = elim (Option-cases (Map.get n p.peers)) [
  | inl unknown ↦ rw unknown (unknown, refl)
  | inr known ↦ rw known.1 (known.1, λ m e. ground arith, λ e. cc)
]
resolve-Resolved none p valid = elim (Option-cases p.default) [
  | inl unset ↦
      let empty : p.peers ≡ [] = valid.default_set unset in
      rw (let e : resolve none p ≡ err no_peers = ground arith in e) (empty, refl)
  | inr set ↦ elim (Option-cases (Map.get set.0 p.peers)) [
    | inl unknown ↦ absurd (unfold Map.contains_key in ground (arith, valid.default_known set.0))
    | inr known ↦
        rw (let e : resolve none p ≡ ok (set.0, known.0) = ground arith in e)
          (known.1, λ n e. cc, λ e. set.1)
  ]
]
