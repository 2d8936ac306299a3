-- ===== src/Base/Chars/Decimal.antt =====
-- Numbers as decimal text, as `{}` prints them.
use agent2agent.Base.{
  ℕ, zero, suc, ◌+◌, ◌-◌, ◌*◌, ◌/◌, ◌%◌, ◌<◌, ◌≡◌, refl, sym, ap, ◌∙◌, ◌≢◌, inl, inr, true, [], ◌∷◌,
  ◌++◌, arith, ltb, if◌then◌else◌, Text, nat_eq, text_eq, Bool-cases, All, All-append,
}
use agent2agent.Base.Chars.{is_ascii_digit}

-- The digits of `n`, with fuel for as many digits as it may have.
digits : ℕ → ℕ → Text
digits zero n = []
digits (suc f) n =
    let rest = digits f (n / 10) in (if ltb n 10 then [] else rest) ++ (b'0' + n % 10) ∷ []

unfoldable pub decimal : ℕ → Text
unfolding digits
decimal n = digits (suc n) n

-- The number that a decimal text stands for.
unfoldable pub value_of : ℕ → Text → ℕ
value_of acc [] = acc
value_of acc (c ∷ s) = value_of (acc * 10 + (c - b'0')) s

value_of-append :
    (acc : ℕ) (s : Text) (c : ℕ) → value_of acc (s ++ c ∷ []) ≡ value_of acc s * 10 + (c - b'0')
unfolding value_of
value_of-append acc [] c = refl
value_of-append acc (d ∷ s) c = value_of-append (acc * 10 + (d - b'0')) s c

value_of-digits : (f n : ℕ) → n < f → value_of 0 (digits f n) ≡ n
unfolding digits
value_of-digits zero n h = absurd (omega arith)
value_of-digits (suc f) n h = elim (Bool-cases (ltb n 10)) [
  | inl small ↦ rw small (unfold value_of in ground arith)
  | inr large ↦ rw large (
      value_of-append 0 (digits f (n / 10)) (b'0' + n % 10)
      ∙ rw (value_of-digits f (n / 10) (ground arith)) (omega arith))
]

-- The decimal text of a number has that number's value.
pub value_of-decimal : (n : ℕ) → value_of 0 (decimal n) ≡ n
unfolding decimal
value_of-decimal n = value_of-digits (suc n) n (omega arith)

-- Different numbers have different decimal texts.
pub decimal-injective : (m n : ℕ) → decimal m ≡ decimal n → m ≡ n
decimal-injective m n h = sym (value_of-decimal m) ∙ ap (value_of 0) h ∙ value_of-decimal n

digit_ascii : (n : ℕ) → is_ascii_digit (b'0' + n % 10) ≡ true
unfolding is_ascii_digit
digit_ascii n = ground arith

-- It has digits only, and one at least.
digits-ascii : (f n : ℕ) → All (λ c. is_ascii_digit c ≡ true) (digits f n)
unfolding digits
digits-ascii zero n = tt
digits-ascii (suc f) n = elim (Bool-cases (ltb n 10)) [
  | inl small ↦ rw small (digit_ascii n, tt)
  | inr large ↦
      rw large (All-append _ (digits f (n / 10)) _ (digits-ascii f (n / 10)) (digit_ascii n, tt))
]

pub decimal-ascii : (n : ℕ) → All (λ c. is_ascii_digit c ≡ true) (decimal n)
unfolding decimal
decimal-ascii n = digits-ascii (suc n) n

append-ne-nil : (s : Text) (c : ℕ) → s ++ c ∷ [] ≢ []
append-ne-nil [] c h = cc
append-ne-nil (d ∷ s) c h = cc

pub decimal-ne-nil : (n : ℕ) → decimal n ≢ []
unfolding decimal digits
decimal-ne-nil n h = append-ne-nil (if ltb n 10 then [] else digits n (n / 10)) (b'0' + n % 10) h
