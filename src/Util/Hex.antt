-- ===== src/Util/Hex.antt =====
-- `to_hex` and `from_hex`
use agent2agent.Base.{
  ℕ, ◌+◌, ◌*◌, ◌/◌, ◌%◌, ◌<◌, ◌≡◌, refl, ap, ◌∙◌, inl, inr, false, some, List, [], ◌∷◌, arith, Text,
  ◌==◌, nat_eq, text_eq, Bool-cases, ==_iff, length, All, ok, ok_or, >>=-eq-ok, ok_or-eq-ok,
  invalid_hex_digit,
}
use agent2agent.Base.Chars.{
  to_ascii_lowercase, to_ascii_lowercase_char, is_whitespace, as_bytes, byte_len, trim,
}
use agent2agent.Base.Chars.Ascii.{NoSpace, IsAscii, trim-NoSpace, as_bytes-ascii}
use agent2agent.Util.{to_hex, from_hex, hex_pairs, from_digit, to_digit}

abbrev pub AreBytes : List ℕ → Type 0
AreBytes = All (λ b. b < 256)

digit_bounds : (d : ℕ) → d < 16 → (is_whitespace (from_digit d) ≡ false) × (from_digit d < 128)
unfolding from_digit is_whitespace
digit_bounds d h = ground arith

to_digit-from_digit : (d : ℕ) → d < 16 → to_digit (from_digit d) ≡ some d
unfolding from_digit to_digit
to_digit-from_digit d h = ground arith

pub to_hex-NoSpace : (bytes : List ℕ) → AreBytes bytes → NoSpace (to_hex bytes)
unfolding to_hex
to_hex-NoSpace [] h = tt
to_hex-NoSpace (b ∷ bytes) h = (
  (digit_bounds (b / 16) (omega arith)).0,
  ((digit_bounds (b % 16) (omega arith)).0, to_hex-NoSpace bytes h.1),
)

to_hex-IsAscii : (bytes : List ℕ) → AreBytes bytes → IsAscii (to_hex bytes)
unfolding to_hex
to_hex-IsAscii [] h = tt
to_hex-IsAscii (b ∷ bytes) h = (
  (digit_bounds (b / 16) (omega arith)).1,
  ((digit_bounds (b % 16) (omega arith)).1, to_hex-IsAscii bytes h.1),
)

pub length-to_hex : (bytes : List ℕ) → length (to_hex bytes) ≡ 2 * length bytes
unfolding to_hex
length-to_hex [] = refl
length-to_hex (b ∷ bytes) = omega (arith, length-to_hex bytes)

hex_pairs-to_hex : (bytes : List ℕ) → AreBytes bytes → hex_pairs (to_hex bytes) ≡ ok bytes
unfolding hex_pairs to_hex
hex_pairs-to_hex [] h = refl
hex_pairs-to_hex (b ∷ bytes) h =
    rw
      (
        to_digit-from_digit (b / 16) (omega arith),
        to_digit-from_digit (b % 16) (omega arith),
        hex_pairs-to_hex bytes h.1,
      )
      (ap (λ (n : ℕ). ok (n ∷ bytes)) (omega arith))

from_hex_lem :
    (s : Text) (n : ℕ)
    → length (as_bytes (trim s)) ≡ 2 * n
    → from_hex s ≡ hex_pairs (as_bytes (trim s))
unfolding from_hex byte_len
from_hex_lem s n e = ground arith

-- Decoding what `to_hex` printed gives the bytes back.
pub from_hex-to_hex : (bytes : List ℕ) → AreBytes bytes → from_hex (to_hex bytes) ≡ ok bytes
from_hex-to_hex bytes h =
    let s = to_hex bytes in
    let same : as_bytes (trim s) ≡ s =
      rw (trim-NoSpace s (to_hex-NoSpace bytes h)) (as_bytes-ascii s (to_hex-IsAscii bytes h)) in
    from_hex_lem s (length bytes) (rw same (length-to_hex bytes))
    ∙ rw same (hex_pairs-to_hex bytes h)

-- The value of a digit is below 16.
to_digit_lt : (c d : ℕ) → to_digit c ≡ some d → d < 16
unfolding to_digit
to_digit_lt c d h = ground arith

to_digit-lower : (c d : ℕ) → to_digit c ≡ some d → from_digit d ≡ to_ascii_lowercase_char c
unfolding to_digit from_digit to_ascii_lowercase_char
to_digit-lower c d h = ground arith

-- What two digits and the rest decode to.
hex_pairs-inv :
    (a b : ℕ) (bs : List ℕ) {out : List ℕ}
    → hex_pairs (a ∷ b ∷ bs) ≡ ok out
    → (hi : ℕ) × (lo : ℕ) × (rest : List ℕ) × (to_digit a ≡ some hi)
      × (to_digit b ≡ some lo)
      × (hex_pairs bs ≡ ok rest)
      × (((hi * 16 + lo) % 256) ∷ rest ≡ out)
unfolding hex_pairs
hex_pairs-inv a b bs h =
    let (hi, p, h1) = >>=-eq-ok (ok_or (invalid_hex_digit a) (to_digit a)) _ h in
    let (lo, q, h2) = >>=-eq-ok (ok_or (invalid_hex_digit b) (to_digit b)) _ h1 in
    let (rest, r, h3) = >>=-eq-ok (hex_pairs bs) _ h2 in
    (hi, lo, rest, ok_or-eq-ok _ _ p, ok_or-eq-ok _ _ q, r, cc)

byte_digits :
    (hi lo : ℕ)
    → hi < 16
    → lo < 16
    → (((hi * 16 + lo) % 256) / 16 ≡ hi)
      × (((hi * 16 + lo) % 256) % 16 ≡ lo)
      × ((hi * 16 + lo) % 256 < 256)
byte_digits hi lo h l = omega arith

-- What was decoded is printed as the digits that were read, in lower case.
to_hex-hex_pairs :
    (bs out : List ℕ)
    → length bs % 2 ≡ 0
    → hex_pairs bs ≡ ok out
    → (to_hex out ≡ to_ascii_lowercase bs) × AreBytes out
unfolding to_hex to_ascii_lowercase hex_pairs
to_hex-hex_pairs [] [] e h = (refl, tt)
to_hex-hex_pairs [] (x ∷ out) e h = cc
to_hex-hex_pairs (a ∷ []) out e h = absurd (omega arith)
to_hex-hex_pairs (a ∷ b ∷ bs) out e h =
    let (hi, lo, rest, p, q, r, o) = hex_pairs-inv a b bs h in
    let (same, bytes) = to_hex-hex_pairs bs rest (omega arith) r in
    let (i, j, k) = byte_digits hi lo (to_digit_lt a hi p) (to_digit_lt b lo q) in
    rw (← o) (rw (i, j, to_digit-lower a hi p, to_digit-lower b lo q, same), (k, bytes))

-- Where `from_hex` accepts a text, what it decodes to prints as the text, trimmed and in lower
-- case, and every number that it decodes to is a byte.
pub to_hex-from_hex :
    (s : Text) (out : List ℕ)
    → from_hex s ≡ ok out
    → (to_hex out ≡ to_ascii_lowercase (as_bytes (trim s))) × AreBytes out
unfolding from_hex byte_len
to_hex-from_hex s out h = elim (Bool-cases (length (as_bytes (trim s)) % 2 == 0)) [
  | inl even ↦
      to_hex-hex_pairs (as_bytes (trim s)) out ((==_iff (length (as_bytes (trim s)) % 2) 0).0 even)
        (ground arith)
  | inr odd ↦ ground arith
]
