-- ===== src/Pairing/Version/Order.antt =====
-- `is_newer` is the order of versions by their parts, the missing ones read as zero.
use mathlib.Core.Path.{subst}
use Prim.Native.Nat.{max}
use native.Mathlib.Decide.{dec_lt}
use agent2agent.Base.{
  ℕ, zero, suc, ◌+◌, ◌≤◌, ◌<◌, ◌≡◌, refl, ◌↔◌, inl, inr, true, false, List, [], ◌∷◌, arith, Text,
  ◌==◌, nat_eq, text_eq, Bool-cases, ==_iff, length, get_elem?, or_zero,
}
use agent2agent.Pairing.Version.Dotted.{dotted, IsVersion, version_parts-dotted}
use agent2agent.Pairing.Version.{newer_from, version_parts, is_newer}

-- `t` is above `o` at some part, and the same at every part before it.
abbrev pub Above : (ℕ → ℕ) → (ℕ → ℕ) → Type 0
Above t o = (i : ℕ) × (o i < t i) × ((j : ℕ) → j < i → t j ≡ o j)

-- Part number `i`, where it is there.
abbrev pub at : List ℕ → ℕ → ℕ
at l i = or_zero (get_elem? l i)

at-beyond : (l : List ℕ) (i : ℕ) → length l ≤ i → at l i ≡ 0
at-beyond [] i h = refl
at-beyond (x ∷ l) zero h = absurd (omega arith)
at-beyond (x ∷ l) (suc i) h = at-beyond l i (omega arith)

newer_from-Above :
    (rounds index : ℕ) (t o : List ℕ)
    → newer_from rounds index t o ≡ true
    → ((j : ℕ) → j < index → at t j ≡ at o j)
    → Above (at t) (at o)
unfolding newer_from
newer_from-Above zero index t o h same = cc
newer_from-Above (suc rounds) index t o h same = elim (Bool-cases (at t index == at o index)) [
  | inl e ↦ newer_from-Above rounds (index + 1) t o (rw e at h) (λ j l. elim (dec_lt j index) [
    | yes p ↦ same j p
    | no n ↦ rw (let k : j ≡ index = omega arith in k) ((==_iff (at t index) (at o index)).0 e)
  ])
  | inr e ↦ (index, ground arith, same)
]

not_newer-le :
    (rounds index : ℕ) (t o : List ℕ)
    → newer_from rounds index t o ≡ false
    → (i : ℕ) → index ≤ i
    → i < index + rounds
    → ((j : ℕ) → index ≤ j → j < i → at t j ≡ at o j)
    → at t i ≤ at o i
unfolding newer_from
not_newer-le zero index t o h i a b same = absurd (omega arith)
not_newer-le (suc rounds) index t o h i a b same = elim (dec_lt index i) [
  | yes p ↦
      not_newer-le rounds (index + 1) t o (ground (arith, same index (omega arith) p)) i
        (omega arith) (omega arith) (λ j l m. same j (omega arith) m)
  | no n ↦ rw (let k : i ≡ index = omega arith in k) (ground arith)
]

newer-Above :
    (t o : List ℕ) → Above (at t) (at o) → newer_from (max (length t) (length o)) 0 t o ≡ true
newer-Above t o (i, above, same) =
    elim (Bool-cases (newer_from (max (length t) (length o)) 0 t o)) [
      | inl newer ↦ newer
      | inr not_newer ↦ absurd (
          omega (
            arith,
            above,
            not_newer-le (max (length t) (length o)) 0 t o not_newer i (omega arith)
                (elim (dec_lt i (length t)) [
                  | yes p ↦ omega arith
                  | no n ↦ absurd (omega (arith, at-beyond t i (omega arith)))
                ])
                (λ j l m. same j m),
          ))
    ]

-- As the code takes a version apart.
is_newer-Above :
    (theirs ours : Text)
    → (is_newer theirs ours ≡ true) ↔ Above (at (version_parts theirs)) (at (version_parts ours))
unfolding is_newer
is_newer-Above theirs ours = (
  λ h.
      newer_from-Above _ 0 (version_parts theirs) (version_parts ours) h
        (λ j l. absurd (omega arith)),
  newer-Above (version_parts theirs) (version_parts ours),
)

-- Of two versions that are written as numbers of 32 bits with dots between them, one is newer than
-- the other exactly where its number is the larger one at the first place at which they differ, a
-- number that is not there counting as zero.
pub is_newer_iff :
    (theirs ours : List ℕ)
    → IsVersion theirs
    → IsVersion ours
    → (is_newer (dotted theirs) (dotted ours) ≡ true) ↔ Above (at theirs) (at ours)
is_newer_iff theirs ours h k =
    subst (λ o. (is_newer (dotted theirs) (dotted ours) ≡ true) ↔ Above (at theirs) (at o))
      (version_parts-dotted ours k)
      (subst
        (λ t.
          (is_newer (dotted theirs) (dotted ours) ≡ true)
          ↔ Above (at t) (at (version_parts (dotted ours))))
        (version_parts-dotted theirs h) (is_newer-Above (dotted theirs) (dotted ours)))
