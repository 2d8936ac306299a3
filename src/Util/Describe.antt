-- ===== src/Util/Describe.antt =====
-- `describe`: an error chain that repeats itself is not repeated to the reader.
use agent2agent.Base.{
  ◌≡◌, refl, ◌∙◌, ◌≢◌, inl, inr, false, some, List, [], ◌∷◌, ◌++◌, append_assoc, arith, Text,
  nat_eq, text_eq, Bool-cases,
}
use agent2agent.Util.{gather, last?, repeats}

-- No message stands directly behind itself.
abbrev pub NoRepeat : List Text → Type 0
NoRepeat [] = Unit
NoRepeat (s ∷ []) = Unit
NoRepeat (s ∷ t ∷ r) = (s ≢ t) × NoRepeat (t ∷ r)

NoRepeat-push :
    (parts : List Text) (t : Text)
    → NoRepeat parts
    → repeats (last? parts) t ≡ false
    → NoRepeat (parts ++ t ∷ [])
unfolding last? repeats
NoRepeat-push [] t n h = tt
NoRepeat-push (s ∷ []) t n h = (ground arith, tt)
NoRepeat-push (s ∷ u ∷ r) t n h = (n.0, NoRepeat-push (u ∷ r) t n.1 h)

gather-NoRepeat : (parts chain : List Text) → NoRepeat parts → NoRepeat (gather parts chain)
unfolding gather
gather-NoRepeat parts [] n = n
gather-NoRepeat parts (t ∷ chain) n = elim (Bool-cases (repeats (last? parts) t)) [
  | inl again ↦ rw again (gather-NoRepeat parts chain n)
  | inr new ↦ rw new (gather-NoRepeat (parts ++ t ∷ []) chain (NoRepeat-push parts t n new))
]

last?-append : (parts : List Text) (t : Text) → last? (parts ++ t ∷ []) ≡ some t
unfolding last?
last?-append [] t = refl
last?-append (s ∷ []) t = refl
last?-append (s ∷ u ∷ r) t = last?-append (u ∷ r) t

gather-new :
    (parts : List Text) (t : Text) (chain : List Text)
    → repeats (last? parts) t ≡ false
    → gather parts (t ∷ chain) ≡ gather (parts ++ t ∷ []) chain
unfolding gather
gather-new parts t chain h = rw h

gather-append :
    (parts : List Text) (t : Text) (chain : List Text)
    → NoRepeat (t ∷ chain)
    → gather (parts ++ t ∷ []) chain ≡ parts ++ t ∷ chain
gather-append parts t [] n = unfold gather in refl
gather-append parts t (u ∷ chain) n =
    gather-new (parts ++ t ∷ []) u chain (rw last?-append (unfold repeats in ground arith))
    ∙ gather-append (parts ++ t ∷ []) u chain n.1
    ∙ append_assoc parts (t ∷ []) (u ∷ chain)

-- `describe` says each message of a chain once where the chain repeats it in a row: no two
-- neighbours of what it joins are the same, and a chain without such repeats is joined whole.
pub gather_lem :
    (chain : List Text) → NoRepeat (gather [] chain) × (NoRepeat chain → gather [] chain ≡ chain)
gather_lem [] = (unfold gather in tt, λ n. unfold gather in refl)
gather_lem (t ∷ chain) = (
  gather-NoRepeat [] (t ∷ chain) tt,
  λ n. gather-new [] t chain (unfold repeats last? in refl) ∙ gather-append [] t chain n,
)
