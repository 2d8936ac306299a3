-- ===== src/Wire/Frame.antt =====
-- `write_frame` and `read_frame` of src/wire.rs: a big-endian length of four bytes, and as many
-- bytes as it says.
pub mod Stream
pub mod Spec
pub mod Refines
pub mod RoundTrip
use agent2agent.Base.{
  ℕ, zero, suc, ◌+◌, ◌-◌, ◌*◌, ◌/◌, ◌%◌, ◌^◌, ◌≤◌, ◌<◌, ◌≡◌, refl, sym, ap, ◌∙◌, ◌≢◌, ◌↔◌, ◌⊎◌, inl,
  inr, Bool, true, false, not, ◌&&◌, ◌||◌, Option, none, some, List, [], ◌∷◌, ◌++◌, map, append-nil,
  append_assoc, arith, ltb, leb, if◌then◌else◌, Text, text, ◌==◌, nat_eq, text_eq, Bool-cases,
  Option-cases, ==_iff, length, get_elem?, take, drop, all, All, All-append, All-map, all→All,
  All→all, length-append, length-map, take-inside, drop-inside, take-beyond, drop-beyond, take_all,
  append-cancel_left, take-append, drop-append, Result, ok, err, ◌>>=◌, ◌>>◌, bail_if, context,
  ok_or, is_ok, within, Context, Error, >>=-eq-ok, ok_or-eq-ok, context-eq-ok, bail_if-eq-ok,
  frame_too_large, ended_in_header, announced_too_large, unexpected_eof, reading_frame_length,
  reading_frame_payload,
}
use agent2agent.Wire.Frame.Stream.{Reader, read, read_exact}

abbrev pub max_frame : ℕ
max_frame = 1024 * 1024

-- `u32::to_be_bytes`
unfoldable pub to_be_bytes : ℕ → List ℕ
to_be_bytes n = (n / 16777216 % 256) ∷ (n / 65536 % 256) ∷ (n / 256 % 256) ∷ (n % 256) ∷ []

-- `u32::from_be_bytes`
unfoldable pub from_be_bytes : List ℕ → ℕ
from_be_bytes (a ∷ b ∷ c ∷ d ∷ []) = ((a * 256 + b) * 256 + c) * 256 + d
from_be_bytes _ = 0

-- What is written to the stream.
unfoldable pub write_frame : List ℕ → Result (List ℕ)
write_frame payload = do
  bail_if (ltb max_frame (length payload)) (frame_too_large (length payload))
  ok (to_be_bytes (length payload) ++ payload)

-- The loop that fills the header. Every round fills at least one byte, so four rounds do.
-- `none` is a stream that ended where a frame would begin.
unfoldable pub read_header : ℕ → List ℕ → Reader → Result (Option (List ℕ) × Reader)
read_header zero filled r = ok (some filled, r)
read_header (suc rounds) filled r =
    if ltb (length filled) 4
    then (do
      (got, r') ← context reading_frame_length (read (4 - length filled) r)
      elim got [
        | [] ↦ if length filled == 0 then ok (none, r') else err (ended_in_header (length filled))
        | ◌∷◌ b bs ↦ read_header rounds (filled ++ b ∷ bs) r'
      ])
    else ok (some filled, r)

unfoldable pub read_frame : Reader → Result (Option (List ℕ) × Reader)
read_frame r = do
  (header, r') ← read_header 4 [] r
  elim header [
    | none ↦ ok (none, r')
    | some len_buf ↦ do
      let len = from_be_bytes len_buf
      bail_if (ltb max_frame len) (announced_too_large len)
      (payload, r'') ← context reading_frame_payload (read_exact len r')
      ok (some payload, r'')
  ]
