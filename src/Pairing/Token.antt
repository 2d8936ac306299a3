-- ===== src/Pairing/Token.antt =====
-- `tokens_match` of src/pairing.rs
use Prim.Native.Nat.{bit_or, bit_xor}
use agent2agent.Base.{
  ℕ, ◌<◌, ◌≡◌, refl, ap, ◌≢◌, ◌↔◌, Bool, true, false, not, ◌||◌, List, [], ◌∷◌, arith,
  if◌then◌else◌, Text, ◌==◌, nat_eq, text_eq, length,
}
use agent2agent.Base.Chars.{as_bytes}
use agent2agent.Base.Chars.Utf8.{IsText, AreBytes, as_bytes-AreBytes, as_bytes-injective}
use agent2agent.Base.Bits.{bit_or_byte, bit_xor_byte}

-- `zip(b).fold(0, |acc, (x, y)| acc | (x ^ y))`
unfoldable pub difference : ℕ → List ℕ → List ℕ → ℕ
difference acc (x ∷ a) (y ∷ b) = difference (bit_or acc (bit_xor x y)) a b
difference acc _ _ = acc

unfoldable pub tokens_match : Text → Text → Bool
tokens_match s t =
    let a = as_bytes s in
    let b = as_bytes t in
    if a == [] || not (length a == length b) then false else difference 0 a b == 0

difference-zero :
    (acc : ℕ) (a b : List ℕ)
    → acc < 256
    → AreBytes a
    → AreBytes b
    → length a ≡ length b
    → (difference acc a b ≡ 0) ↔ ((acc ≡ 0) × (a ≡ b))
unfolding difference
difference-zero acc [] [] l ha hb e = ground arith
difference-zero acc [] (y ∷ b) l ha hb e = absurd (omega arith)
difference-zero acc (x ∷ a) [] l ha hb e = absurd (omega arith)
difference-zero acc (x ∷ a) (y ∷ b) l ha hb e =
    let (xor_lt, xor_zero) = bit_xor_byte x y ha.0 hb.0 in
    let (or_lt, or_zero) = bit_or_byte acc (bit_xor x y) l xor_lt in
    ground (arith, difference-zero (bit_or acc (bit_xor x y)) a b or_lt ha.1 hb.1)

module _ (s t : Text) (h : IsText s) (k : IsText t) where
  folded :
      length (as_bytes s) ≡ length (as_bytes t)
      → (difference 0 (as_bytes s) (as_bytes t) ≡ 0) ↔ (as_bytes s ≡ as_bytes t)
  folded e =
      let both =
        difference-zero 0 (as_bytes s) (as_bytes t) (omega arith) (as_bytes-AreBytes s h)
          (as_bytes-AreBytes t k) e in
      (λ d. (both.0 d).1, λ same. both.1 (refl, same))

  bytes_match : tokens_match s t ≡ true → (as_bytes s ≡ as_bytes t) × (as_bytes s ≢ [])
  unfolding tokens_match
  bytes_match e = ground (arith, folded)

  match_bytes : as_bytes s ≡ as_bytes t → as_bytes s ≢ [] → tokens_match s t ≡ true
  unfolding tokens_match
  match_bytes e n = ground (arith, ap length e, folded)

  -- Two tokens match exactly when they are the same text and not empty.
  pub tokens_match_iff : (tokens_match s t ≡ true) ↔ ((s ≡ t) × (s ≢ []))
  unfolding as_bytes
  tokens_match_iff = (
    λ e.
        let (same, full) = bytes_match e in
        (as_bytes-injective s t h k same, λ n. full (rw n refl)),
    λ e. match_bytes (ap as_bytes e.0) (λ n. e.1 (as_bytes-injective s [] h tt n)),
  )
