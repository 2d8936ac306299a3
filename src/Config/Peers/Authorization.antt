-- ===== src/Config/Peers/Authorization.antt =====
-- Who is let in: `name_for` after a pairing and after a removal.
use agent2agent.Base.{
  suc, ◌≡◌, refl, sym, ap, ◌∙◌, ◌≢◌, inl, inr, Option, none, some, [], arith, if◌then◌else◌, Text,
  ◌==◌, nat_eq, text_eq, Option-cases, length, ok,
}
use agent2agent.Base.Map
use mathlib.Core.Path.{subst}
use agent2agent.Base.Map.Laws.{get-insert, get-remove}
use agent2agent.Config.Iroh.{Iroh, IsLawful}
use agent2agent.Config.Peers.{Peer, Peers, add_paired, name_for, free_name, remove}
use agent2agent.Config.Peers.Fresh.{free_name-IsFirstFree}
use agent2agent.Config.Peers.Invariant.{IsValid}
use agent2agent.Config.Peers.Paired.{
  Paired, again, new, name_for-some, name_for-none, add_paired-Paired,
}
use agent2agent.Config.Peers.Kept.{add_paired-IsValid, remove-IsValid}

to_string-injective :
    (I : Iroh) → IsLawful I → (a b : I.EndpointId) → I.to_string a ≡ I.to_string b → a ≡ b
to_string-injective I L a b h = cc (L.from_str-to_string a, L.from_str-to_string b)

-- What is left of a name that an id is known by when `name` is taken away.
abbrev pub known_without : Text → Option Text → Option Text
known_without name none = none
known_without name (some k) = if k == name then none else some k

module _ (I : Iroh) where
  open I use {EndpointId, to_string}

  -- An entry of the id is the one that `name_for` finds, since there is no other.
  pub name_for-known :
      (id : EndpointId) (p : Peers) (name : Text) (peer : Peer)
      → IsValid p
      → Map.get name p.peers ≡ some peer
      → peer.id ≡ to_string id
      → name_for I id p ≡ some name
  name_for-known id p name peer valid known same = elim (Option-cases (name_for I id p)) [
    | inl nothing ↦ absurd (name_for-none I id p name peer nothing known same)
    | inr found ↦
        let (other, is_there, e) = name_for-some I id p found.0 valid.sorted found.1 in
        found.1 ∙ ap some (valid.ids_distinct found.0 name other peer is_there known (cc))
  ]

  -- Two lists that agree on the entries of an id know it by the same name.
  name_for-agree :
      (id : EndpointId) (p q : Peers)
      → IsValid p
      → IsValid q
      → ((k : Text) (v : Peer)
          → v.id ≡ to_string id
          → Map.get k p.peers ≡ some v
          → Map.get k q.peers ≡ some v)
      → ((k : Text) (v : Peer)
          → v.id ≡ to_string id
          → Map.get k q.peers ≡ some v
          → Map.get k p.peers ≡ some v)
      → name_for I id q ≡ name_for I id p
  name_for-agree id p q vp vq to from = elim (Option-cases (name_for I id p)) [
    | inr found ↦
        let (peer, known, e) = name_for-some I id p found.0 vp.sorted found.1 in
        name_for-known id q found.0 peer vq (to found.0 peer e known) e ∙ sym found.1
    | inl nothing ↦ elim (Option-cases (name_for I id q)) [
      | inl none_there ↦ none_there ∙ sym nothing
      | inr found ↦
          let (peer, known, e) = name_for-some I id q found.0 vq.sorted found.1 in
          absurd (name_for-none I id p found.0 peer nothing (from found.0 peer e known) e)
    ]
  ]

  module _ (L : IsLawful I) (preferred : Text) (id : EndpointId) (p : Peers)
      (valid : IsValid p) where
    abbrev NewEntry : Text → Peers → Type 0
    NewEntry name q =
        (name_for I id q ≡ some name)
        × ((other : EndpointId) → other ≢ id → name_for I other q ≡ name_for I other p)
        × ((k : Text) → k ≢ name → Map.get k q.peers ≡ Map.get k p.peers)
        × (name_for I id p ≡ none → Map.get name p.peers ≡ none)

    free_name_absent :
        (name : Text)
        → name ≡ free_name (suc (length p.peers)) p.peers preferred 2 preferred
        → Map.get name p.peers ≡ none
    unfolding Map.contains_key
    free_name_absent name e = rw e (ground (arith, (free_name-IsFirstFree preferred p.peers).free))

    paired_entry :
        {name : Text} {q : Peers} → Paired I preferred id p name q → IsValid q → NewEntry name q
    paired_entry {name} (again peer known same e) vq = rw e (
      name_for-known id p name peer valid known same,
      λ other h. refl,
      λ k h. refl,
      λ h. absurd (name_for-none I id p name peer h known same),
    )
    paired_entry {name} {q} (new stranger named e) vq =
        let written : Map.Map Peer =
          Map.insert name (record { id = to_string id; addrs = [] }) p.peers in
        let absent = free_name_absent name named in
        let at =
          λ (k : Text). get-insert name k (record { id = to_string id; addrs = [] }) p.peers in
        (
          name_for-known id q name (record { id = to_string id; addrs = [] }) vq
              (rw e (ground (arith, at name))) refl,
          λ other differs.
              name_for-agree other p q valid vq (λ k v same known. rw e (ground (arith, at k)))
                (λ k v same known.
                  let no_clash : v.id ≢ to_string id =
                    λ f. differs (to_string-injective I L other id (sym same ∙ f)) in
                  let kept : Map.get k written ≡ some v =
                    subst (λ (r : Peers). Map.get k r.peers ≡ some v) e known in
                  ground (arith, at k)),
          λ k h. rw e (ground (arith, at k)),
          λ h. absent,
        )

    -- On a well-formed list pairing files an id under one name and touches no other entry: afterwards the id is known by
    -- the returned name, every other id is known as before, every other name has the entry that it
    -- had, and a newcomer's name was free.
    pub name_for-add_paired :
        (name : Text) (q : Peers) → add_paired I preferred id p ≡ ok (name, q) → NewEntry name q
    name_for-add_paired name q h =
        paired_entry (add_paired-Paired I preferred id p valid h)
          (add_paired-IsValid I preferred id p valid h)

  module _ (p : Peers) (id : EndpointId) (name : Text) (valid : IsValid p) where
    abbrev rest : Peers
    rest = (remove name p).1

    rest_entry : (k : Text) → Map.get k rest.peers ≡ (if k == name then none else Map.get k p.peers)
    unfolding remove
    rest_entry k = get-remove name k p.peers

    rest_name : (j : Text) → name_for I id rest ≡ some j → (j ≢ name) × (name_for I id p ≡ some j)
    rest_name j h =
        let (peer, there, same) =
          name_for-some I id rest j (remove-IsValid name p valid).sorted h in
        (
          λ e. ground (arith, rest_entry j),
          name_for-known id p j peer valid (ground (arith, rest_entry j)) same,
        )

    -- Removing a peer from a valid list revokes its id and no other: no id is known by its name
    -- any more, and an id that was known by another name still is.
    pub name_for-remove : name_for I id (remove name p).1 ≡ known_without name (name_for I id p)
    name_for-remove = elim (Option-cases (name_for I id rest)) [
      | inr left ↦ let (differs, known) = rest_name left.0 left.1 in ground arith
      | inl gone ↦ elim (Option-cases (name_for I id p)) [
        | inl stranger ↦ ground arith
        | inr found ↦
            let (peer, known, same) = name_for-some I id p found.0 valid.sorted found.1 in
            ground (
              arith,
              rest_entry found.0,
              name_for-known id rest found.0 peer (remove-IsValid name p valid),
            )
      ]
    ]
