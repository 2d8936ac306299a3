-- ===== src/Base/Chars/Ascii.antt =====
-- Texts that trimming leaves alone, and texts whose bytes are their characters.
use agent2agent.Base.{ℕ, ◌<◌, ◌≡◌, refl, false, [], ◌∷◌, arith, Text, nat_eq, text_eq, All}
use agent2agent.Base.Chars.{is_whitespace, trim, trim_start, trim_end_by, as_bytes}

-- No character of the text is white space.
abbrev pub NoSpace : Text → Type 0
NoSpace = All (λ c. is_whitespace c ≡ false)

abbrev pub IsAscii : Text → Type 0
IsAscii = All (λ c. c < 128)

trim_end-NoSpace : (s : Text) → NoSpace s → trim_end_by is_whitespace s ≡ s
unfolding trim_end_by
trim_end-NoSpace [] h = refl
trim_end-NoSpace (c ∷ []) h = rw h.0
trim_end-NoSpace (c ∷ d ∷ s) h = rw (trim_end-NoSpace (d ∷ s) h.1)

-- `trim_start` stops at the first character that is no white space.
pub trim_start-black : (c : ℕ) (s : Text) → is_whitespace c ≡ false → trim_start (c ∷ s) ≡ c ∷ s
unfolding trim_start
trim_start-black c s h = unfold is_whitespace in rw h

trim_start-NoSpace : (s : Text) → NoSpace s → trim_start s ≡ s
trim_start-NoSpace [] h = unfold trim_start in refl
trim_start-NoSpace (c ∷ s) h = trim_start-black c s h.0

pub trim_lem : (s : Text) → trim s ≡ trim_end_by is_whitespace (trim_start s)
unfolding trim
trim_lem s = refl

pub trim-NoSpace : (s : Text) → NoSpace s → trim s ≡ s
trim-NoSpace s h = rw trim_lem (rw (trim_start-NoSpace s h) (trim_end-NoSpace s h))

pub as_bytes-ascii : (s : Text) → IsAscii s → as_bytes s ≡ s
unfolding as_bytes
as_bytes-ascii [] h = refl
as_bytes-ascii (c ∷ s) h = ground (arith, as_bytes-ascii s h.1)
