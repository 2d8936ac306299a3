-- ===== src/Base/Map.antt =====
-- `BTreeMap<String, V>`: the entries in the order of their keys, in which the source iterates.
pub mod Laws
use agent2agent.Base.{
  ℕ, Bool, true, false, Option, none, some, List, [], ◌∷◌, map, ◌==◌, text_eq, Text, if◌then◌else◌,
}
use agent2agent.Base.Order.{text_lt}

abbrev pub Map {ℓ} : Type ℓ → Type ℓ
Map V = List (Text × V)

module _ {ℓ} {V : Type ℓ} where
  unfoldable pub get : Text → Map V → Option V
  get k [] = none
  get k ((j, v) ∷ m) = if k == j then some v else get k m

  unfoldable pub contains_key : Text → Map V → Bool
  unfolding get
  contains_key k m = elim (get k m) [ none ↦ false | some _ ↦ true ]

  unfoldable pub insert : Text → V → Map V → Map V
  unfolding text_lt
  insert k v [] = (k, v) ∷ []
  insert k v ((j, w) ∷ m) =
      if k == j
      then (k, v) ∷ m
      else if text_lt k j
      then (k, v) ∷ (j, w) ∷ m
      else (j, w) ∷ insert k v m

  unfoldable pub remove : Text → Map V → Map V
  remove k [] = []
  remove k ((j, w) ∷ m) = let rest = remove k m in if k == j then rest else (j, w) ∷ rest

  -- `iter().find(p)`
  unfoldable pub find : (Text → V → Bool) → Map V → Option (Text × V)
  find p [] = none
  find p ((j, w) ∷ m) = if p j w then some (j, w) else find p m

  -- `keys().next()`
  unfoldable pub first_key : Map V → Option Text
  first_key [] = none
  first_key ((j, w) ∷ m) = some j

unfoldable pub keys {ℓ} : {V : Type ℓ} → Map V → List Text
keys [] = []
keys ((j, _) ∷ m) = j ∷ keys m
