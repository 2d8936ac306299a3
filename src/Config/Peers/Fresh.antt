-- ===== src/Config/Peers/Fresh.antt =====
-- The name that `add_paired` files a newcomer under.
use agent2agent.Base.{
  ℕ, zero, suc, ◌+◌, ◌≤◌, ◌<◌, ◌≡◌, refl, sym, ap, ◌∙◌, ◌≢◌, inl, inr, true, false, ◌∷◌, ◌++◌,
  arith, Text, nat_eq, text_eq, Bool-cases, length, length-append, append-cancel_left,
}
use native.Mathlib.Decide.{dec_lt}
use agent2agent.Base.Chars.Decimal.{decimal, decimal-injective}
use agent2agent.Base.Map
use agent2agent.Base.Map.{Map}
use agent2agent.Base.Map.Laws.{contains_key-remove, length-remove-lt}
use agent2agent.Config.Peers.{Peer, free_name}

-- The names in the order in which they are tried: `x`, `x-2`, `x-3`, …
abbrev pub candidate : Text → ℕ → Text
candidate preferred zero = preferred
candidate preferred (suc i) = preferred ++ b'-' ∷ decimal (i + 2)

longer : (p t : Text) (c : ℕ) → p ≢ p ++ c ∷ t
longer p t c h = absurd (omega (arith, ap length h, length-append p (c ∷ t)))

candidate-injective : (p : Text) (i j : ℕ) → candidate p i ≡ candidate p j → i ≡ j
candidate-injective p zero zero h = refl
candidate-injective p zero (suc j) h = absurd (longer p (decimal (j + 2)) b'-' h)
candidate-injective p (suc i) zero h = absurd (longer p (decimal (i + 2)) b'-' (sym h))
candidate-injective p (suc i) (suc j) h = omega (
  arith,
  decimal-injective (i + 2) (j + 2)
      (cc (append-cancel_left p (b'-' ∷ decimal (i + 2)) (b'-' ∷ decimal (j + 2)) h)),
)

-- The first candidate, from number `i` on, that is no key of the map.
pub record IsFirstFree (p : Text) (m : Map Peer) (i : ℕ) (name : Text) : Type 0 where
  pub index : ℕ
  pub from : i ≤ index
  pub named : name ≡ candidate p index
  pub free : Map.contains_key name m ≡ false
  pub taken : (j : ℕ) → i ≤ j → j < index → Map.contains_key (candidate p j) m ≡ true

module _ (p : Text) (m : Map Peer) where
  abbrev Agree : ℕ → Map Peer → Type 0
  Agree i left =
      (j : ℕ) → i ≤ j → Map.contains_key (candidate p j) left ≡ Map.contains_key (candidate p j) m

  later_Agree :
      (i : ℕ) (left : Map Peer) → Agree i left → Agree (suc i) (Map.remove (candidate p i) left)
  later_Agree i left same j h =
      contains_key-remove (candidate p i) (candidate p j) left
        (λ e. omega (arith, candidate-injective p j i e))
      ∙ same j (omega arith)

  past :
      (i : ℕ) {name : Text}
      → Map.contains_key (candidate p i) m ≡ true
      → IsFirstFree p m (suc i) name
      → IsFirstFree p m i name
  past i taken f = record {
    index = f.index;
    from = omega (arith, f.from);
    named = f.named;
    free = f.free;
    taken = λ j a b. elim (dec_lt i j) [
      | yes l ↦ f.taken j l b
      | no n ↦ rw (let same : j ≡ i = omega arith in same) taken
    ];
  }

  -- One round, given what the rounds after it do.
  step :
      (fuel i suffix : ℕ) (left : Map Peer)
      → suffix ≡ i + 2
      → Agree i left
      → length left < suc fuel
      → (Agree (suc i) (Map.remove (candidate p i) left)
          → length (Map.remove (candidate p i) left) < fuel
          → IsFirstFree p m (suc i) (free_name fuel m p (suffix + 1) (candidate p (suc i))))
      → IsFirstFree p m i (free_name (suc fuel) m p suffix (candidate p i))
  unfolding free_name
  step fuel i suffix left e same h rec = elim (Bool-cases (Map.contains_key (candidate p i) m)) [
    | inl taken ↦
        rw (taken, e)
          (past i taken (
            rw e at (
              rec (later_Agree i left same) (
                omega
                  (arith, length-remove-lt (candidate p i) left (same i (omega arith) ∙ taken))))))
    | inr free ↦ rw free (record {
      index = i;
      from = omega arith;
      named = refl;
      free = free;
      taken = λ j a b. absurd (omega arith);
    })
  ]

  -- `left` holds the entries of `m` that later candidates may still meet: it bounds the rounds.
  loop_lem :
      (fuel i suffix : ℕ) (left : Map Peer)
      → suffix ≡ i + 2
      → ((j : ℕ)
          → i ≤ j
          → Map.contains_key (candidate p j) left ≡ Map.contains_key (candidate p j) m)
      → length left < fuel
      → IsFirstFree p m i (free_name fuel m p suffix (candidate p i))
  loop_lem zero i suffix left e same h = absurd (omega arith)
  loop_lem (suc fuel) i suffix left e same h =
      step fuel i suffix left e same h
        (loop_lem fuel (suc i) (suffix + 1) (Map.remove (candidate p i) left) (omega arith))

-- The loop ends at the first candidate that is free, before its fuel does.
pub free_name-IsFirstFree :
    (p : Text) (m : Map Peer) → IsFirstFree p m 0 (free_name (suc (length m)) m p 2 p)
free_name-IsFirstFree p m = loop_lem p m (suc (length m)) 0 2 m refl (λ j h. refl) (omega arith)
