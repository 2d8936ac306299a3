-- ===== src/Config/Peers/Invariant.antt =====
-- The invariant of the peer list, which every operation on it keeps.
use agent2agent.Base.{
  ◌≡◌, refl, ◌≢◌, ◌⊎◌, inl, inr, true, none, some, [], ◌∷◌, arith, Text, nat_eq, text_eq,
  Option-cases,
}
use agent2agent.Base.Map
use agent2agent.Base.Map.{Map}
use agent2agent.Base.Map.Laws.{IsSorted, insert-IsSorted, get-insert}
use agent2agent.Config.Peers.{Peer, Peers, no_peers_yet, default_or}

pub record IsValid (p : Peers) : Type 0 where
  pub sorted : IsSorted p.peers
  -- The default peer is on the list, and there is one as soon as there is a peer.
  pub default_known : (d : Text) → p.default ≡ some d → Map.contains_key d p.peers ≡ true
  pub default_set : p.default ≡ none → p.peers ≡ []
  -- No two names stand for one id.
  pub ids_distinct :
      (k j : Text) (v w : Peer)
      → Map.get k p.peers ≡ some v
      → Map.get j p.peers ≡ some w
      → v.id ≡ w.id
      → k ≡ j

pub no_peers_yet-IsValid : IsValid no_peers_yet
unfolding Map.get
no_peers_yet-IsValid = record {
  sorted = tt;
  default_known = λ d h. cc;
  default_set = λ h. refl;
  ids_distinct = λ k j v w a b e. cc;
}

insert-ne-nil : (k : Text) (v : Peer) (m : Map Peer) → Map.insert k v m ≢ []
unfolding Map.insert
insert-ne-nil k v [] h = cc
insert-ne-nil k v ((i, w) ∷ m) h = ground arith

-- An entry may be written where its id is on the list under no other name.
module _ (p : Peers) (valid : IsValid p) (name : Text) (peer : Peer)
    (fresh : (k : Text) (v : Peer) → Map.get k p.peers ≡ some v → v.id ≡ peer.id → k ≡ name) where
  abbrev written : Map Peer
  written = Map.insert name peer p.peers

  written_distinct :
      (k j : Text) (v w : Peer)
      → Map.get k written ≡ some v
      → Map.get j written ≡ some w
      → v.id ≡ w.id
      → k ≡ j
  written_distinct k j v w a b e = ground (
    arith,
    get-insert name k peer p.peers,
    get-insert name j peer p.peers,
    valid.ids_distinct k j v w,
    fresh k v,
    fresh j w,
  )

  written_known :
      (d : Text)
      → (d ≡ name) ⊎ (Map.contains_key d p.peers ≡ true)
      → Map.contains_key d written ≡ true
  unfolding Map.contains_key
  written_known d h = ground (arith, get-insert name d peer p.peers)

  written-IsValid :
      (d : Text)
      → (d ≡ name) ⊎ (Map.contains_key d p.peers ≡ true)
      → IsValid (record { default = some d; peers = written })
  written-IsValid d h = record {
    sorted = insert-IsSorted name peer p.peers valid.sorted;
    default_known = λ e q. rw (let same : e ≡ d = cc in same) (written_known d h);
    default_set = λ q. cc;
    ids_distinct = written_distinct;
  }

  -- With the first entry becoming the default.
  pub default_or-IsValid : IsValid (record { default = default_or p.default name; peers = written })
  default_or-IsValid = elim (Option-cases p.default) [
    | inl none_set ↦ rw none_set (written-IsValid name (inl refl))
    | inr some_set ↦
        rw some_set.1 (written-IsValid some_set.0 (inr (valid.default_known some_set.0 some_set.1)))
  ]
