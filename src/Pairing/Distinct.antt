-- ===== src/Pairing/Distinct.antt =====
-- `distinct_from` of src/pairing.rs
use agent2agent.Base.{
  ℕ, zero, suc, ◌+◌, ◌<◌, ◌≡◌, refl, ap, ◌∙◌, inl, inr, true, false, not, ◌++◌, arith,
  if◌then◌else◌, Text, text, nat_eq, text_eq, Bool-cases, ==_iff, length, length-append, length-map,
}
use agent2agent.Base.Chars.{eq_ignore_ascii_case, to_ascii_lowercase, to_ascii_lowercase_char}
use agent2agent.Base.Chars.Decimal.{decimal}

-- The loop over the suffixes from `suffix` on, `rounds` of them.
unfoldable pub try_suffixes : ℕ → ℕ → Text → Text → Text
try_suffixes zero suffix preferred taken = preferred ++ text "-x"
try_suffixes (suc rounds) suffix preferred taken =
    let candidate = preferred ++ decimal suffix in
    let rest = try_suffixes rounds (suffix + 1) preferred taken in
    if not (eq_ignore_ascii_case candidate taken) then candidate else rest

-- The suffixes are 2 to 99.
unfoldable pub distinct_from : Text → Text → Text
distinct_from preferred taken =
    if not (eq_ignore_ascii_case preferred taken)
    then preferred
    else try_suffixes 98 2 preferred taken

same_length : (s t : Text) → eq_ignore_ascii_case s t ≡ true → length s ≡ length t
unfolding eq_ignore_ascii_case to_ascii_lowercase
same_length s t h = omega (
  arith,
  ap length ((==_iff (to_ascii_lowercase s) (to_ascii_lowercase t)).0 h),
  length-map s to_ascii_lowercase_char,
  length-map t to_ascii_lowercase_char,
)

-- A name with something behind it is not one that has the name's length.
longer_differs :
    (preferred taken suffix : Text)
    → eq_ignore_ascii_case preferred taken ≡ true
    → 0 < length suffix
    → eq_ignore_ascii_case (preferred ++ suffix) taken ≡ false
longer_differs preferred taken suffix same h =
    elim (Bool-cases (eq_ignore_ascii_case (preferred ++ suffix) taken)) [
      | inl again ↦ absurd (
          omega (
            arith,
            same_length preferred taken same,
            same_length (preferred ++ suffix) taken again,
            length-append preferred suffix,
          ))
      | inr differs ↦ differs
    ]

first_round :
    (rounds suffix : ℕ) (preferred taken : Text)
    → eq_ignore_ascii_case (preferred ++ decimal suffix) taken ≡ false
    → try_suffixes (suc rounds) suffix preferred taken ≡ preferred ++ decimal suffix
unfolding try_suffixes
first_round rounds suffix preferred taken h = rw h

decimal_two : decimal 2 ≡ text "2"
unfolding decimal
decimal_two = refl

-- The name is one that the other side does not use, whatever the case of its letters; it is the
-- preferred one where that will do, and the preferred one with a 2 behind it otherwise.
pub distinct_from_lem :
    (preferred taken : Text)
    → (eq_ignore_ascii_case (distinct_from preferred taken) taken ≡ false)
      × (distinct_from preferred taken
          ≡ (if eq_ignore_ascii_case preferred taken then preferred ++ text "2" else preferred))
unfolding distinct_from
distinct_from_lem preferred taken = elim (Bool-cases (eq_ignore_ascii_case preferred taken)) [
  | inr differs ↦ rw differs (differs, refl)
  | inl same ↦
      let new = longer_differs preferred taken (text "2") same (omega arith) in
      let two : try_suffixes 98 2 preferred taken ≡ preferred ++ text "2" =
        first_round 97 2 preferred taken (rw decimal_two new) ∙ rw decimal_two in
      rw same (rw two (new, refl))
]
