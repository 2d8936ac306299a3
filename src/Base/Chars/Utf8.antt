-- ===== src/Base/Chars/Utf8.antt =====
-- The UTF-8 form of a text is a list of bytes, and tells texts apart.
use mathlib.Core.Path.{ap₂}
use agent2agent.Base.{
  ℕ, ◌<◌, ◌≡◌, refl, sym, ◌≢◌, inl, inr, List, [], ◌∷◌, ◌++◌, arith, ltb, Text, nat_eq, text_eq,
  Bool-cases, All, All-append,
}
use agent2agent.Base.Chars.{as_bytes, utf8_char}

-- A character is below 0x110000.
abbrev pub IsText : Text → Type 0
IsText = All (λ c. c < 0x110000)

abbrev pub AreBytes : List ℕ → Type 0
AreBytes = All (λ b. b < 256)

utf8_char-AreBytes : (c : ℕ) → c < 0x110000 → AreBytes (utf8_char c)
unfolding utf8_char
utf8_char-AreBytes c h = elim (Bool-cases (ltb c 0x80)) [
  | inl one ↦ rw one (ground arith, tt)
  | inr more ↦ rw more (elim (Bool-cases (ltb c 0x800)) [
    | inl two ↦ rw two (ground arith, (ground arith, tt))
    | inr more2 ↦ rw more2 (elim (Bool-cases (ltb c 0x10000)) [
      | inl three ↦ rw three (ground arith, (ground arith, (ground arith, tt)))
      | inr four ↦ rw four (ground arith, (ground arith, (ground arith, (ground arith, tt))))
    ])
  ])
]

pub as_bytes-AreBytes : (s : Text) → IsText s → AreBytes (as_bytes s)
unfolding as_bytes
as_bytes-AreBytes [] h = tt
as_bytes-AreBytes (c ∷ s) h =
    All-append (λ b. b < 256) (utf8_char c) (as_bytes s) (utf8_char-AreBytes c h.0)
      (as_bytes-AreBytes s h.1)

utf8_char-prefix :
    (c d : ℕ) (r t : List ℕ)
    → c < 0x110000
    → d < 0x110000
    → utf8_char c ++ r ≡ utf8_char d ++ t
    → (c ≡ d) × (r ≡ t)
unfolding utf8_char
utf8_char-prefix c d r t h k e = ground arith

utf8_char-ne-nil : (c : ℕ) (r : List ℕ) → utf8_char c ++ r ≢ []
unfolding utf8_char
utf8_char-ne-nil c r h = ground arith

pub as_bytes-injective : (s t : Text) → IsText s → IsText t → as_bytes s ≡ as_bytes t → s ≡ t
unfolding as_bytes
as_bytes-injective [] [] h k e = refl
as_bytes-injective [] (d ∷ t) h k e = absurd (utf8_char-ne-nil d (as_bytes t) (sym e))
as_bytes-injective (c ∷ s) [] h k e = absurd (utf8_char-ne-nil c (as_bytes s) e)
as_bytes-injective (c ∷ s) (d ∷ t) h k e =
    let (same, rest) = utf8_char-prefix c d (as_bytes s) (as_bytes t) h.0 k.0 e in
    ap₂ (λ (a : ℕ) (r : Text). a ∷ r) same (as_bytes-injective s t h.1 k.1 rest)
