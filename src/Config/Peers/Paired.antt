-- ===== src/Config/Peers/Paired.antt =====
-- What `name_for` and `add_paired` have found when they return.
use agent2agent.Base.{
  suc, ◌≡◌, ap, ◌≢◌, inl, inr, none, some, [], arith, Text, ◌==◌, nat_eq, text_eq, Option-cases,
  ==_iff, length, ok, >>=-eq-ok,
}
use agent2agent.Base.Map
use agent2agent.Base.Map.{Map}
use agent2agent.Base.Map.Laws.{IsSorted, find_sound, find-none, insert_same}
use agent2agent.Config.Name.{validate_name}
use agent2agent.Config.Iroh.{Iroh}
use agent2agent.Config.Peers.{Peer, Peers, default_or, addrs_of, add_paired, name_for, free_name}
use agent2agent.Config.Peers.Invariant.{IsValid}

module _ (I : Iroh) where
  open I use {EndpointId, to_string}

  -- The name that is found stands for that id.
  pub name_for-some :
      (id : EndpointId) (p : Peers) (name : Text)
      → IsSorted p.peers
      → name_for I id p ≡ some name
      → (peer : Peer) × (Map.get name p.peers ≡ some peer) × (peer.id ≡ to_string id)
  unfolding name_for
  name_for-some id p name s h =
      elim (Option-cases (Map.find (λ _ peer. peer.id == to_string id) p.peers)) [
        | inl nothing ↦ ground arith
        | inr found ↦
            let (k, v) = found.0 in
            let (known, same) =
              find_sound (λ _ peer. peer.id == to_string id) p.peers k v s found.1 in
            (
              v,
              rw (let e : name ≡ k = ground arith in e) known,
              (==_iff v.id (to_string id)).0 same,
            )
      ]

  -- Where none is found, no entry has that id.
  pub name_for-none :
      (id : EndpointId) (p : Peers) (k : Text) (v : Peer)
      → name_for I id p ≡ none
      → Map.get k p.peers ≡ some v
      → v.id ≢ to_string id
  unfolding name_for
  name_for-none id p k v h known =
      ground (arith, find-none (λ _ peer. peer.id == to_string id) p.peers k v)

  -- A peer that is on the list already keeps its name and its entry; a stranger gets a free name.
  pub data Paired (preferred : Text) (id : EndpointId) (p : Peers) (name : Text) (q : Peers)
      : Type 0 where
    again :
        (peer : Peer)
        → Map.get name p.peers ≡ some peer
        → peer.id ≡ to_string id
        → q ≡ p
        → Paired preferred id p name q
    new :
        name_for I id p ≡ none
        → name ≡ free_name (suc (length p.peers)) p.peers preferred 2 preferred
        → q ≡ record {
          default = default_or p.default name;
          peers = Map.insert name (record { id = to_string id; addrs = [] }) p.peers;
        }
        → Paired preferred id p name q

  rewritten :
      (id : EndpointId) (p : Peers) (name : Text) (peer : Peer)
      → IsValid p
      → Map.get name p.peers ≡ some peer
      → peer.id ≡ to_string id
      → record p {
        peers =
            Map.insert name
              (record { id = to_string id; addrs = addrs_of (Map.get name p.peers) })
              p.peers;
      }
        ≡ p
  rewritten id p name peer valid known same =
      rw (known, ← same)
        (ap (λ (m : Map Peer). record p { peers = m })
          (insert_same name peer p.peers valid.sorted known))

  pub add_paired-Paired :
      (preferred : Text) (id : EndpointId) (p : Peers) {name : Text} {q : Peers}
      → IsValid p
      → add_paired I preferred id p ≡ ok (name, q)
      → Paired preferred id p name q
  unfolding add_paired
  add_paired-Paired preferred id p {name} {q} valid h =
      let (_, _, h1) = >>=-eq-ok (validate_name preferred) _ h in
      elim (Option-cases (name_for I id p)) [
        | inl stranger ↦ new stranger (ground arith) (ground arith)
        | inr found ↦
            let (peer, known, same) = name_for-some id p found.0 valid.sorted found.1 in
            let e : name ≡ found.0 = ground arith in
            again peer (rw e known) same
              (ground (arith, rewritten id p found.0 peer valid known same))
      ]
