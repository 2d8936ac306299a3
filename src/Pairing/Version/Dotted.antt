-- ===== src/Pairing/Version/Dotted.antt =====
-- `version_parts` of src/pairing.rs reads the numbers of a version that is written with dots.
use agent2agent.Base.{
  ℕ, ◌+◌, ◌-◌, ◌*◌, ◌≤◌, ◌<◌, ◌≡◌, refl, ap, ◌∙◌, ◌≢◌, true, false, some, List, [], ◌∷◌, map, arith,
  leb, Text, ◌==◌, nat_eq, text_eq, All, All-map, or_zero,
}
use agent2agent.Base.Chars.{is_ascii_digit, join}
use agent2agent.Base.Chars.Decimal.{
  decimal, value_of, value_of-decimal, decimal-ascii, decimal-ne-nil,
}
use agent2agent.Base.Chars.Split.{Lacks, split-join}
use agent2agent.Pairing.Version.{scan_u32, parse_u32, version_parts}

-- A version as it is written.
abbrev pub dotted : List ℕ → Text
dotted parts = join (b'.' ∷ []) (map (λ n. decimal n) parts)

-- One number at least, and each of 32 bits.
abbrev pub IsVersion : List ℕ → Type 0
IsVersion parts = (parts ≢ []) × All (λ n. n < 4294967296) parts

le-value_of : (acc : ℕ) (s : Text) → acc ≤ value_of acc s
unfolding value_of
le-value_of acc [] = omega arith
le-value_of acc (c ∷ s) = omega (arith, le-value_of (acc * 10 + (c - b'0')) s)

scan_u32-value_of :
    (acc : ℕ) (s : Text)
    → All (λ c. is_ascii_digit c ≡ true) s
    → value_of acc s < 4294967296
    → scan_u32 acc s ≡ some (value_of acc s)
unfolding scan_u32 value_of
scan_u32-value_of acc [] h k = refl
scan_u32-value_of acc (c ∷ s) h k =
    let small = le-value_of (acc * 10 + (c - b'0')) s in
    let fits : leb 4294967296 (acc * 10 + (c - b'0')) ≡ false = ground arith in
    rw h.0 (rw fits (scan_u32-value_of (acc * 10 + (c - b'0')) s h.1 k))

digit-not_plus : (c : ℕ) → is_ascii_digit c ≡ true → (c == b'+') ≡ false
unfolding is_ascii_digit
digit-not_plus c h = ground arith

parse_u32-value_of :
    (s : Text)
    → s ≢ []
    → All (λ c. is_ascii_digit c ≡ true) s
    → value_of 0 s < 4294967296
    → parse_u32 s ≡ some (value_of 0 s)
unfolding parse_u32
parse_u32-value_of [] n h k = absurd (n refl)
parse_u32-value_of (c ∷ []) n h k = rw (digit-not_plus c h.0) (scan_u32-value_of 0 (c ∷ []) h k)
parse_u32-value_of (c ∷ d ∷ s) n h k =
    rw (digit-not_plus c h.0) (scan_u32-value_of 0 (c ∷ d ∷ s) h k)

parse_u32-decimal : (n : ℕ) → n < 4294967296 → or_zero (parse_u32 (decimal n)) ≡ n
parse_u32-decimal n k =
    let v = value_of-decimal n in
    let read = parse_u32-value_of (decimal n) (decimal-ne-nil n) (decimal-ascii n) (rw v k) in
    ap (λ o. or_zero o) read ∙ v

digit-Lacks : (c : ℕ) → is_ascii_digit c ≡ true → (c == b'.') ≡ false
unfolding is_ascii_digit
digit-Lacks c h = ground arith

numbers-Lacks : (parts : List ℕ) → All (Lacks b'.') (map (λ n. decimal n) parts)
numbers-Lacks [] = tt
numbers-Lacks (n ∷ parts) = (All-map digit-Lacks (decimal n) (decimal-ascii n), numbers-Lacks parts)

numbers-read :
    (parts : List ℕ)
    → All (λ n. n < 4294967296) parts
    → map (λ part. or_zero (parse_u32 part)) (map (λ n. decimal n) parts) ≡ parts
numbers-read [] h = refl
numbers-read (n ∷ parts) h =
    ap (λ m. m ∷ map (λ part. or_zero (parse_u32 part)) (map (λ n. decimal n) parts))
      (parse_u32-decimal n h.0)
    ∙ ap (λ r. n ∷ r) (numbers-read parts h.1)

pub version_parts-dotted : (parts : List ℕ) → IsVersion parts → version_parts (dotted parts) ≡ parts
unfolding version_parts
version_parts-dotted [] h = absurd (h.0 refl)
version_parts-dotted (n ∷ parts) h =
    ap (λ pieces. map (λ part. or_zero (parse_u32 part)) pieces)
      (split-join b'.' (decimal n) (map (λ n. decimal n) parts) (numbers-Lacks (n ∷ parts)))
    ∙ numbers-read (n ∷ parts) h.1
