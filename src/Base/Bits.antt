-- ===== src/Base/Bits.antt =====
-- `|` and `^` on bytes, checked value by value.
use Prim.Native.Nat.{bit_or, bit_xor, compare, Ordering}
use agent2agent.Base.{
  ℕ, zero, suc, ◌<◌, ◌≡◌, refl, ◌↔◌, Bool, true, false, not, ◌&&◌, arith, ltb, if◌then◌else◌,
  nat_eq, text_eq,
}

-- Whether two numbers are the same, by the order alone, so that a table is quick.
abbrev same_number : ℕ → ℕ → Bool
same_number a b = elim (compare a b) [ Ordering.eq ↦ true | _ ↦ false ]

-- `p` holds of the numbers from 0 to `count - 1`.
table : (p : ℕ → Bool) (count : ℕ) → Bool
table p zero = true
table p (suc k) = if p k then table p k else false

look_up : (p : ℕ → Bool) (count : ℕ) → table p count ≡ true → (i : ℕ) → i < count → p i ≡ true
unfolding table
look_up p zero full i inside = absurd (omega arith)
look_up p (suc k) full i inside =
    ground (arith, look_up p k (let t : table p k ≡ true = ground arith in t) i)

abbrev agree : Bool → Bool → Bool
agree true b = b
agree false b = not b

abbrev or_row : ℕ → ℕ → Bool
or_row a b =
    ltb (bit_or a b) 256 && agree (same_number (bit_or a b) 0) (same_number a 0 && same_number b 0)

abbrev xor_row : ℕ → ℕ → Bool
xor_row a b = ltb (bit_xor a b) 256 && agree (same_number (bit_xor a b) 0) (same_number a b)

or_table : table (λ a. table (or_row a) 256) 256 ≡ true
unfolding table
or_table = refl

xor_table : table (λ a. table (xor_row a) 256) 256 ≡ true
unfolding table
xor_table = refl

pub bit_or_byte :
    (a b : ℕ) → a < 256 → b < 256 → (bit_or a b < 256) × ((bit_or a b ≡ 0) ↔ ((a ≡ 0) × (b ≡ 0)))
bit_or_byte a b h k =
    let row : or_row a b ≡ true =
      look_up (or_row a) 256 (look_up (λ a. table (or_row a) 256) 256 or_table a h) b k in
    ground arith

pub bit_xor_byte :
    (a b : ℕ) → a < 256 → b < 256 → (bit_xor a b < 256) × ((bit_xor a b ≡ 0) ↔ (a ≡ b))
bit_xor_byte a b h k =
    let row : xor_row a b ≡ true =
      look_up (xor_row a) 256 (look_up (λ a. table (xor_row a) 256) 256 xor_table a h) b k in
    ground arith
