-- ===== src/Base/Order.antt =====
-- The order of Rust's `String`: by UTF-8 bytes, which is that of the code points.
use agent2agent.Base.{
  ◌≡◌, refl, Bool, true, false, [], ◌∷◌, arith, ltb, ◌==◌, nat_eq, text_eq, Text, if◌then◌else◌,
}

unfoldable pub text_lt : Text → Text → Bool
text_lt [] [] = false
text_lt [] (b ∷ t) = true
text_lt (a ∷ s) [] = false
text_lt (a ∷ s) (b ∷ t) = if ltb a b then true else if a == b then text_lt s t else false

pub text_lt_irrefl : (s : Text) → text_lt s s ≡ false
unfolding text_lt
text_lt_irrefl [] = refl
text_lt_irrefl (a ∷ s) = ground (arith, text_lt_irrefl s)

pub text_lt_trans : (s t u : Text) → text_lt s t ≡ true → text_lt t u ≡ true → text_lt s u ≡ true
unfolding text_lt
text_lt_trans [] [] u h k = ground arith
text_lt_trans [] (b ∷ t) [] h k = k
text_lt_trans [] (b ∷ t) (c ∷ u) h k = refl
text_lt_trans (a ∷ s) [] u h k = ground arith
text_lt_trans (a ∷ s) (b ∷ t) [] h k = k
text_lt_trans (a ∷ s) (b ∷ t) (c ∷ u) h k = ground (arith, text_lt_trans s t u)

-- Two texts neither of which is below the other are the same.
pub text_lt_connex : (s t : Text) → text_lt s t ≡ false → text_lt t s ≡ false → s ≡ t
unfolding text_lt
text_lt_connex [] [] h k = refl
text_lt_connex [] (b ∷ t) h k = ground arith
text_lt_connex (a ∷ s) [] h k = ground arith
text_lt_connex (a ∷ s) (b ∷ t) h k = ground (arith, text_lt_connex s t)

-- A text that is neither the same as another nor below it is above it.
pub text_lt_above : (k i : Text) → (k == i) ≡ false → text_lt k i ≡ false → text_lt i k ≡ true
text_lt_above k i h l = ground (arith, text_lt_connex k i)
