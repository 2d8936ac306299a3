-- ===== src/Util.antt =====
-- src/util.rs: hexadecimal text, random identifiers, and error chains.
pub mod Hex
pub mod Describe
use agent2agent.Base.Int.{as_i64, pos, ℤ}
use agent2agent.Base.{
  ℕ, zero, suc, ◌+◌, ◌-◌, ◌*◌, ◌/◌, ◌%◌, ◌^◌, ◌≤◌, ◌<◌, ◌≡◌, refl, sym, ap, ◌∙◌, ◌≢◌, ◌↔◌, ◌⊎◌, inl,
  inr, Bool, true, false, not, ◌&&◌, ◌||◌, Option, none, some, List, [], ◌∷◌, ◌++◌, map, append-nil,
  append_assoc, arith, ltb, leb, if◌then◌else◌, Text, text, ◌==◌, nat_eq, text_eq, Bool-cases,
  Option-cases, ==_iff, length, get_elem?, take, drop, all, All, All-append, All-map, all→All,
  All→all, length-append, length-map, append-cancel_left, take-append, drop-append, Result, ok, err,
  ◌>>=◌, ◌>>◌, bail_if, context, ok_or, is_ok, within, Context, Error, >>=-eq-ok, ok_or-eq-ok,
  context-eq-ok, bail_if-eq-ok, odd_hex_length, invalid_hex_digit,
}
use agent2agent.Base.Chars.{trim, as_bytes, byte_len, join}

-- `char::from_digit(d, 16)` at a digit below 16
unfoldable pub from_digit : ℕ → ℕ
from_digit d = if ltb d 10 then b'0' + d else b'a' + d - 10

-- `(b as char).to_digit(16)`
unfoldable pub to_digit : ℕ → Option ℕ
to_digit c =
    if leb b'0' c && leb c b'9'
    then some (c - b'0')
    else if leb b'a' c && leb c b'f'
    then some (c - b'a' + 10)
    else if leb b'A' c && leb c b'F'
    then some (c - b'A' + 10)
    else none

-- A byte's shift by four is a division by 16, and its mask the remainder.
unfoldable pub to_hex : List ℕ → Text
to_hex [] = []
to_hex (b ∷ bytes) = from_digit (b / 16) ∷ from_digit (b % 16) ∷ to_hex bytes

-- The loop over `chunks_exact(2)`. The digits are below 16, so the `|` of the source adds them.
unfoldable pub hex_pairs : List ℕ → Result (List ℕ)
hex_pairs (h ∷ l ∷ bytes) = do
  hi ← ok_or (invalid_hex_digit h) (to_digit h)
  lo ← ok_or (invalid_hex_digit l) (to_digit l)
  rest ← hex_pairs bytes
  ok (((hi * 16 + lo) % 256) ∷ rest)
hex_pairs _ = ok []

unfoldable pub from_hex : Text → Result (List ℕ)
from_hex raw =
    let s = trim raw in
    do
      bail_if (if byte_len s % 2 == 0 then false else true) (odd_hex_length (byte_len s))
      hex_pairs (as_bytes s)

-- `buf` is what the random source fills the buffer with.
unfoldable pub random_hex : List ℕ → Text
unfolding to_hex
random_hex buf = to_hex buf

-- The sixteen random bytes of a message id.
unfoldable pub new_message_id : List ℕ → Text
unfolding random_hex
new_message_id buf = random_hex buf

-- `now_ts`, from what the clock says: `none` is a time before 1970.
unfoldable pub now_ts : Option ℕ → ℤ
now_ts none = pos 0
now_ts (some secs) = as_i64 secs

last? : List Text → Option Text
last? [] = none
last? (s ∷ []) = some s
last? (s ∷ t ∷ r) = last? (t ∷ r)

repeats : Option Text → Text → Bool
repeats none t = false
repeats (some s) t = s == t

-- The loop over `error.chain()`, from the parts gathered so far.
unfoldable pub gather : List Text → List Text → List Text
unfolding last? repeats
gather parts [] = parts
gather parts (t ∷ chain) = gather (if repeats (last? parts) t then parts else parts ++ t ∷ []) chain

-- The messages of an error and its causes, outermost first.
unfoldable pub describe : List Text → Text
unfolding gather
describe chain = join (text ": ") (gather [] chain)
