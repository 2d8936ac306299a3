-- ===== src/Base/Map/Laws.antt =====
-- What a look-up sees after each operation of a map, and the order of the keys.
use agent2agent.Base.{
  ◌≤◌, ◌<◌, ◌≡◌, refl, ap, ◌≢◌, inl, inr, Bool, true, false, none, some, [], ◌∷◌, arith,
  if◌then◌else◌, Text, ◌==◌, nat_eq, text_eq, Bool-cases, ==_iff, length, All, All-map,
}
use agent2agent.Base.Order.{text_lt, text_lt_irrefl, text_lt_trans, text_lt_above}
use agent2agent.Base.Map.{contains_key, Map, get, insert, remove, find}

module _ {ℓ} {V : Type ℓ} where
  pub get-insert :
      (k j : Text) (v : V) (m : Map V) → get j (insert k v m) ≡ (if j == k then some v else get j m)
  unfolding get insert
  get-insert k j v [] = refl
  get-insert k j v ((i, w) ∷ m) = ground (arith, get-insert k j v m)

  pub get-remove :
      (k j : Text) (m : Map V) → get j (remove k m) ≡ (if j == k then none else get j m)
  unfolding get remove
  get-remove k j [] = ground arith
  get-remove k j ((i, w) ∷ m) = ground (arith, get-remove k j m)

  -- The keys of a map rise strictly.
  abbrev pub IsSorted : Map V → Type 0
  IsSorted [] = Unit
  IsSorted ((j, w) ∷ m) = All (λ (e : Text × V). text_lt j e.0 ≡ true) m × IsSorted m

  get_above :
      (k : Text) (m : Map V) → All (λ (e : Text × V). text_lt k e.0 ≡ true) m → get k m ≡ none
  unfolding get
  get_above k [] h = refl
  get_above k ((i, w) ∷ m) h = ground (arith, get_above k m h.1, text_lt_irrefl k)

  pub All-insert {κ} :
      (P : Text × V → Type κ) (k : Text) (v : V) (m : Map V)
      → P (k, v)
      → All P m
      → All P (insert k v m)
  unfolding insert
  All-insert P k v [] p h = (p, tt)
  All-insert P k v ((i, w) ∷ m) p h = elim (Bool-cases (k == i)) [
    | inl same ↦ rw same (p, h.1)
    | inr new ↦ rw new (elim (Bool-cases (text_lt k i)) [
      | inl below ↦ rw below (p, h)
      | inr above ↦ rw above (h.0, All-insert P k v m p h.1)
    ])
  ]

  pub insert-IsSorted : (k : Text) (v : V) (m : Map V) → IsSorted m → IsSorted (insert k v m)
  unfolding insert
  insert-IsSorted k v [] h = (tt, tt)
  insert-IsSorted k v ((i, w) ∷ m) h = elim (Bool-cases (k == i)) [
    | inl same ↦ rw same (rw ((==_iff k i).0 same) h.0, h.1)
    | inr new ↦ rw new (elim (Bool-cases (text_lt k i)) [
      | inl below ↦ rw below ((below, All-map (λ e p. text_lt_trans k i e.0 below p) m h.0), h)
      | inr above ↦ rw above (
        All-insert (λ e. text_lt i e.0 ≡ true) k v m (text_lt_above k i new above) h.0,
        insert-IsSorted k v m h.1,
      )
    ])
  ]

  All-remove {κ} : (P : Text × V → Type κ) (k : Text) (m : Map V) → All P m → All P (remove k m)
  unfolding remove
  All-remove P k [] h = tt
  All-remove P k ((i, w) ∷ m) h = elim (Bool-cases (k == i)) [
    | inl same ↦ rw same (All-remove P k m h.1)
    | inr other ↦ rw other (h.0, All-remove P k m h.1)
  ]

  pub remove-IsSorted : (k : Text) (m : Map V) → IsSorted m → IsSorted (remove k m)
  unfolding remove
  remove-IsSorted k [] h = tt
  remove-IsSorted k ((i, w) ∷ m) h = elim (Bool-cases (k == i)) [
    | inl same ↦ rw same (remove-IsSorted k m h.1)
    | inr other ↦ rw other (All-remove (λ e. text_lt i e.0 ≡ true) k m h.0, remove-IsSorted k m h.1)
  ]

  -- What `find` returns is an entry that passes the test.
  pub find_sound :
      (p : Text → V → Bool) (m : Map V) (k : Text) (v : V)
      → IsSorted m
      → find p m ≡ some (k, v)
      → (get k m ≡ some v) × (p k v ≡ true)
  unfolding get find
  find_sound p [] k v s h = cc
  find_sound p ((i, w) ∷ m) k v s h = ground (arith, find_sound p m k v s.1, get_above i m s.0)

  -- Where `find` returns nothing, no entry passes the test.
  pub find-none :
      (p : Text → V → Bool) (m : Map V) (k : Text) (v : V)
      → find p m ≡ none
      → get k m ≡ some v
      → p k v ≡ false
  unfolding get find
  find-none p [] k v h g = cc
  find-none p ((i, w) ∷ m) k v h g = ground (arith, find-none p m k v)

  -- Removing never lengthens a map, and shortens it where the key was there.
  length-remove-le : (k : Text) (m : Map V) → length (remove k m) ≤ length m
  unfolding remove
  length-remove-le k [] = omega arith
  length-remove-le k ((i, w) ∷ m) = ground (arith, length-remove-le k m)

  pub length-remove-lt :
      (k : Text) (m : Map V) → contains_key k m ≡ true → length (remove k m) < length m
  unfolding remove contains_key
  length-remove-lt k [] h = ground arith
  length-remove-lt k ((i, w) ∷ m) h = ground (arith, length-remove-le k m, length-remove-lt k m)

  pub contains_key-remove :
      (k j : Text) (m : Map V) → j ≢ k → contains_key j (remove k m) ≡ contains_key j m
  unfolding contains_key
  contains_key-remove k j m h = ground (arith, get-remove k j m)

  -- Writing what is there changes nothing.
  pub insert_same :
      (k : Text) (v : V) (m : Map V) → IsSorted m → get k m ≡ some v → insert k v m ≡ m
  unfolding insert get
  insert_same k v [] s h = cc
  insert_same k v ((i, w) ∷ m) s h = elim (Bool-cases (k == i)) [
    | inl same ↦ rw same (let e : v ≡ w = ground arith in rw (e, (==_iff k i).0 same))
    | inr other ↦ rw other (elim (Bool-cases (text_lt k i)) [
      | inl below ↦
          let gone : get k m ≡ none =
            get_above k m (All-map (λ e p. text_lt_trans k i e.0 below p) m s.0) in
          ground arith
      | inr above ↦ rw above (ap (λ r. (i, w) ∷ r) (insert_same k v m s.1 (ground arith)))
    ])
  ]
