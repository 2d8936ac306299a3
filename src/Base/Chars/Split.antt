-- ===== src/Base/Chars/Split.antt =====
-- `str::split` at one character, and what joins the pieces again.
use agent2agent.Base.{
  ℕ, ◌≡◌, refl, ap, ◌∙◌, ◌≢◌, inl, inr, false, List, [], ◌∷◌, ◌++◌, arith, if◌then◌else◌, Text,
  ◌==◌, nat_eq, text_eq, Bool-cases, ==_iff, All,
}
use agent2agent.Base.Chars.{join}

-- A character before the first piece.
abbrev pub push_head : ℕ → List Text → List Text
push_head c [] = (c ∷ []) ∷ []
push_head c (p ∷ ps) = (c ∷ p) ∷ ps

-- The pieces between the separators: one more than there are separators.
unfoldable pub split : ℕ → Text → List Text
split sep [] = [] ∷ []
split sep (c ∷ s) = if c == sep then [] ∷ split sep s else push_head c (split sep s)

-- No character of the text is the separator.
abbrev pub Lacks : ℕ → Text → Type 0
Lacks sep = All (λ c. (c == sep) ≡ false)

pub split-lacking : (sep : ℕ) (s : Text) → Lacks sep s → split sep s ≡ s ∷ []
unfolding split
split-lacking sep [] h = refl
split-lacking sep (c ∷ s) h = rw h.0 (rw (split-lacking sep s h.1))

-- A piece, a separator and a rest are split into the piece and what the rest is split into.
pub split-piece : (sep : ℕ) (p s : Text) → Lacks sep p → split sep (p ++ sep ∷ s) ≡ p ∷ split sep s
unfolding split
split-piece sep [] s h = ground arith
split-piece sep (c ∷ p) s h = rw h.0 (rw (split-piece sep p s h.1))

join-push_head : (sep : Text) (c : ℕ) (ps : List Text) → join sep (push_head c ps) ≡ c ∷ join sep ps
unfolding join
join-push_head sep c [] = refl
join-push_head sep c (p ∷ []) = refl
join-push_head sep c (p ∷ q ∷ ps) = refl

push_head-ne-nil : (c : ℕ) (ps : List Text) → push_head c ps ≢ []
push_head-ne-nil c [] h = cc
push_head-ne-nil c (p ∷ ps) h = cc

pub split-ne-nil : (sep : ℕ) (s : Text) → split sep s ≢ []
unfolding split
split-ne-nil sep [] h = cc
split-ne-nil sep (c ∷ s) h = elim (Bool-cases (c == sep)) [
  | inl same ↦ cc (rw same at h)
  | inr other ↦ push_head-ne-nil c (split sep s) (rw other at h)
]

join-nil_cons : (sep : Text) (ps : List Text) → ps ≢ [] → join sep ([] ∷ ps) ≡ sep ++ join sep ps
unfolding join
join-nil_cons sep [] h = absurd (h refl)
join-nil_cons sep (p ∷ ps) h = refl

-- Joining the pieces again gives the text back.
pub join-split : (sep : ℕ) (s : Text) → join (sep ∷ []) (split sep s) ≡ s
unfolding split
join-split sep [] = unfold join in refl
join-split sep (c ∷ s) = elim (Bool-cases (c == sep)) [
  | inl same ↦ rw same (
      join-nil_cons (sep ∷ []) (split sep s) (split-ne-nil sep s)
      ∙ rw (join-split sep s) (rw ((==_iff c sep).0 same)))
  | inr other ↦
      rw other (join-push_head (sep ∷ []) c (split sep s) ∙ ap (λ r. c ∷ r) (join-split sep s))
]

-- Splitting what was joined gives the pieces back.
pub split-join :
    (sep : ℕ) (p : Text) (ps : List Text)
    → All (Lacks sep) (p ∷ ps)
    → split sep (join (sep ∷ []) (p ∷ ps)) ≡ p ∷ ps
unfolding join
split-join sep p [] h = split-lacking sep p h.0
split-join sep p (q ∷ ps) h =
    split-piece sep p (join (sep ∷ []) (q ∷ ps)) h.0 ∙ ap (λ r. p ∷ r) (split-join sep q ps h.1)

push_head-append :
    (c : ℕ) (ps qs : List Text) → ps ≢ [] → push_head c (ps ++ qs) ≡ push_head c ps ++ qs
push_head-append c [] qs n = absurd (n refl)
push_head-append c (p ∷ ps) qs n = refl

-- A separator and a last piece.
pub split-last :
    (sep : ℕ) (s p : Text) → Lacks sep p → split sep (s ++ sep ∷ p) ≡ split sep s ++ p ∷ []
unfolding split
split-last sep [] p h = split-piece sep [] p tt ∙ ap (λ r. [] ∷ r) (split-lacking sep p h)
split-last sep (c ∷ s) p h = elim (Bool-cases (c == sep)) [
  | inl same ↦ rw same (ap (λ r. [] ∷ r) (split-last sep s p h))
  | inr other ↦ rw other (
      ap (λ r. push_head c r) (split-last sep s p h)
      ∙ push_head-append c (split sep s) (p ∷ []) (split-ne-nil sep s))
]
