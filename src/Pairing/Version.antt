-- ===== src/Pairing/Version.antt =====
-- `version_parts` and `is_newer` of src/pairing.rs
pub mod Dotted
pub mod Order
use Prim.Native.Nat.{max}
use agent2agent.Base.{
  ℕ, zero, suc, ◌+◌, ◌-◌, ◌*◌, ◌/◌, ◌%◌, ◌^◌, ◌≤◌, ◌<◌, ◌≡◌, refl, sym, ap, ◌∙◌, ◌≢◌, ◌↔◌, ◌⊎◌, inl,
  inr, Bool, true, false, not, ◌&&◌, ◌||◌, Option, none, some, List, [], ◌∷◌, ◌++◌, map, append-nil,
  append_assoc, arith, ltb, leb, if◌then◌else◌, Text, text, ◌==◌, nat_eq, text_eq, Bool-cases,
  Option-cases, ==_iff, length, get_elem?, take, drop, all, All, All-append, All-map, all→All,
  All→all, length-append, length-map, take-inside, drop-inside, take-beyond, drop-beyond, take_all,
  take-append-drop, length-take-le, append-cancel_left, take-append, drop-append, Result, ok, err,
  ◌>>=◌, ◌>>◌, bail_if, context, ok_or, is_ok, or_zero, within, Context, Error, >>=-eq-ok,
  ok_or-eq-ok, context-eq-ok, bail_if-eq-ok,
}
use agent2agent.Base.Chars.{is_ascii_digit}
use agent2agent.Base.Chars.Split.{split}

abbrev pub u32_mod : ℕ
u32_mod = 2 ^ 32

-- The digits of `u32::from_str`, with its checks for overflow.
unfoldable pub scan_u32 : ℕ → Text → Option ℕ
scan_u32 n [] = some n
scan_u32 n (c ∷ s) =
    let next = n * 10 + (c - b'0') in
    let rest = scan_u32 next s in
    if not (is_ascii_digit c) then none else if leb u32_mod next then none else rest

-- `parse::<u32>()`, which takes a plus sign too
unfoldable pub parse_u32 : Text → Option ℕ
unfolding scan_u32
parse_u32 [] = none
parse_u32 (c ∷ []) = if c == b'+' then none else scan_u32 0 (c ∷ [])
parse_u32 (c ∷ d ∷ s) = if c == b'+' then scan_u32 0 (d ∷ s) else scan_u32 0 (c ∷ d ∷ s)

-- Parts that are no number count as zero.
unfoldable pub version_parts : Text → List ℕ
version_parts version = map (λ part. or_zero (parse_u32 part)) (split b'.' version)

-- The loop over the parts from `index` on, `rounds` of them.
unfoldable pub newer_from : ℕ → ℕ → List ℕ → List ℕ → Bool
newer_from zero index theirs ours = false
newer_from (suc rounds) index theirs ours =
    let t = or_zero (get_elem? theirs index) in
    let o = or_zero (get_elem? ours index) in
    let rest = newer_from rounds (index + 1) theirs ours in if not (t == o) then ltb o t else rest

unfoldable pub is_newer : Text → Text → Bool
is_newer theirs ours =
    let t = version_parts theirs in
    let o = version_parts ours in newer_from (max (length t) (length o)) 0 t o
