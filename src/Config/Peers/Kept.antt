-- ===== src/Config/Peers/Kept.antt =====
-- Every operation on the peer list keeps its invariant.
use agent2agent.Base.{
  ◌≡◌, refl, ◌∙◌, inl, inr, Bool, true, not, ◌&&◌, Option, none, some, [], ◌∷◌, arith, Text, ◌==◌,
  nat_eq, text_eq, Bool-cases, ok, >>=-eq-ok,
}
use agent2agent.Base.Map
use agent2agent.Base.Map.{Map}
use agent2agent.Base.Map.Laws.{remove-IsSorted, get-remove, find-none}
use agent2agent.Config.Name.{validate_name}
use agent2agent.Config.Iroh.{Iroh}
use agent2agent.Config.Peers.{
  Peer, Peers, default_or, remove, set_default, add, add_paired, parse_endpoint_id, repoint,
}
use agent2agent.Base.Map.Laws.{contains_key-remove}
use agent2agent.Config.Peers.Paired.{Paired, again, new, add_paired-Paired, name_for-none}
use agent2agent.Config.Peers.Invariant.{IsValid, default_or-IsValid}

set_default-IsValid :
    (name : Text) (p : Peers) {q : Peers} → IsValid p → set_default name p ≡ ok q → IsValid q
unfolding set_default
set_default-IsValid name p {q} valid h = elim (Bool-cases (Map.contains_key name p.peers)) [
  | inl known ↦ rw (let e : q ≡ record p { default = some name } = ground arith in e) record {
    sorted = valid.sorted;
    default_known = λ d e. rw (let same : d ≡ name = cc in same) known;
    default_set = λ e. cc;
    ids_distinct = valid.ids_distinct;
  }
  | inr unknown ↦ ground arith
]

-- The key of a first entry is a key.
first_key_known : (m : Map Peer) (d : Text) → Map.first_key m ≡ some d → Map.contains_key d m ≡ true
unfolding Map.first_key Map.contains_key
first_key_known [] d h = cc
first_key_known ((i, w) ∷ m) d h = unfold Map.get in ground arith

no_first_key : (m : Map Peer) → Map.first_key m ≡ none → m ≡ []
unfolding Map.first_key
no_first_key [] h = refl
no_first_key ((i, w) ∷ m) h = cc

repoint_known :
    (o : Option Text) (name d : Text) (m : Map Peer)
    → ((e : Text) → o ≡ some e → Map.contains_key e m ≡ true)
    → repoint o name (Map.remove name m) ≡ some d
    → Map.contains_key d (Map.remove name m) ≡ true
unfolding repoint
repoint_known none name d m known h = cc
repoint_known (some e) name d m known h = elim (Bool-cases (e == name)) [
  | inl same ↦ first_key_known (Map.remove name m) d (rw same at h)
  | inr other ↦
      let kept : e ≡ d = ground arith in
      rw (← kept) (contains_key-remove name e m (ground arith) ∙ known e refl)
]

repoint-none :
    (o : Option Text) (name : Text) (m : Map Peer)
    → (o ≡ none → m ≡ [])
    → repoint o name (Map.remove name m) ≡ none
    → Map.remove name m ≡ []
unfolding repoint
repoint-none none name m empty h = rw (empty refl) (unfold Map.remove in refl)
repoint-none (some e) name m empty h = no_first_key (Map.remove name m) (ground arith)

pub remove-IsValid : (name : Text) (p : Peers) → IsValid p → IsValid (remove name p).1
unfolding remove
remove-IsValid name p valid = record {
  sorted = remove-IsSorted name p.peers valid.sorted;
  default_known = λ d h. repoint_known p.default name d p.peers valid.default_known h;
  default_set = λ h. repoint-none p.default name p.peers valid.default_set h;
  ids_distinct = λ k j v w a b e.
      ground
        (arith, get-remove name k p.peers, get-remove name j p.peers, valid.ids_distinct k j v w);
}

module _ (I : Iroh) where
  open I use {EndpointId, to_string}

  abbrev clashes : Text → EndpointId → Text → Peer → Bool
  clashes name id other peer = not (other == name) && peer.id == to_string id

  -- What `add` has found where it succeeds.
  add-eq-ok :
      (name raw : Text) (p : Peers) {q : Peers}
      → add I name raw p ≡ ok q
      → (id : EndpointId) × (parse_endpoint_id I raw ≡ ok id)
        × (Map.find (clashes name id) p.peers ≡ none)
        × (q ≡ record {
          default = default_or p.default name;
          peers = Map.insert name (record { id = to_string id; addrs = [] }) p.peers;
        })
  unfolding add
  add-eq-ok name raw p h =
      let (_, _, h1) = >>=-eq-ok (validate_name name) _ h in
      let (id, parsed, h2) = >>=-eq-ok (parse_endpoint_id I raw) _ h1 in
      (id, parsed, ground arith, ground arith)

  add-IsValid :
      (name raw : Text) (p : Peers) {q : Peers} → IsValid p → add I name raw p ≡ ok q → IsValid q
  add-IsValid name raw p valid h =
      let (id, parsed, clear, same) = add-eq-ok name raw p h in
      rw same (
        default_or-IsValid p valid name _
          (λ k v known e. ground (arith, find-none (clashes name id) p.peers k v clear known)))

  pub add_paired-IsValid :
      (preferred : Text) (id : EndpointId) (p : Peers) {name : Text} {q : Peers}
      → IsValid p
      → add_paired I preferred id p ≡ ok (name, q)
      → IsValid q
  add_paired-IsValid preferred id p valid h = keep (add_paired-Paired I preferred id p valid h)
    where
      keep : {name : Text} {q : Peers} → Paired I preferred id p name q → IsValid q
      keep (again peer known same e) = rw e valid
      keep {name} (new stranger named e) = rw e (
          default_or-IsValid p valid name _
            (λ k v known f. absurd (name_for-none I id p k v stranger known f)))

-- From a valid list `add`, `add_paired`, `remove` and `set_default` lead to a valid one: the keys
-- rise, no two names share an id, the default is on the list, and it is set while there are peers.
pub Peers-IsValid :
    (I : Iroh) (p : Peers)
    → IsValid p
    → ((name raw : Text) (q : Peers) → add I name raw p ≡ ok q → IsValid q)
      × ((preferred : Text) (id : I.EndpointId) (name : Text) (q : Peers)
          → add_paired I preferred id p ≡ ok (name, q)
          → IsValid q)
      × ((name : Text) → IsValid (remove name p).1)
      × ((name : Text) (q : Peers) → set_default name p ≡ ok q → IsValid q)
Peers-IsValid I p valid = (
  λ name raw q h. add-IsValid I name raw p valid h,
  λ preferred id name q h. add_paired-IsValid I preferred id p valid h,
  λ name. remove-IsValid name p valid,
  λ name q h. set_default-IsValid name p valid h,
)
