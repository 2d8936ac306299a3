-- ===== src/Wire/Frame/Spec.antt =====
-- A frame at the front of a list of bytes: what `read_frame` is to find, however the bytes arrive.
use agent2agent.Base.{
  ℕ, ◌^◌, ◌<◌, ◌≡◌, ap, ◌∙◌, true, false, Option, none, some, List, [], ◌∷◌, ◌++◌, arith, ltb, leb,
  if◌then◌else◌, nat_eq, text_eq, length, take, drop, length-append, take-append, drop-append,
  Result, ok, err, bail_if, within, >>=-eq-ok, bail_if-eq-ok, frame_too_large, ended_in_header,
  announced_too_large, unexpected_eof, reading_frame_payload,
}
use agent2agent.Wire.Frame.{from_be_bytes, to_be_bytes, write_frame, max_frame}

-- What is left of a stream whose header announces `len` bytes.
unfoldable pub payload_of : ℕ → List ℕ → Result (Option (List ℕ) × List ℕ)
payload_of len rest =
    if ltb max_frame len
    then err (announced_too_large len)
    else if leb len (length rest)
    then ok (some (take len rest), drop len rest)
    else err (within reading_frame_payload unexpected_eof)

unfoldable pub first_frame : List ℕ → Result (Option (List ℕ) × List ℕ)
first_frame (a ∷ b ∷ c ∷ d ∷ rest) = payload_of (from_be_bytes (a ∷ b ∷ c ∷ d ∷ [])) rest
first_frame [] = ok (none, [])
first_frame bytes = err (ended_in_header (length bytes))

from_be-to_be : (n : ℕ) → n < 2 ^ 32 → from_be_bytes (to_be_bytes n) ≡ n
unfolding from_be_bytes to_be_bytes
from_be-to_be n h = omega arith

payload_of-append :
    (payload rest : List ℕ)
    → ltb max_frame (length payload) ≡ false
    → payload_of (length payload) (payload ++ rest) ≡ ok (some payload, rest)
unfolding payload_of
payload_of-append payload rest small =
    let room : leb (length payload) (length (payload ++ rest)) ≡ true =
      ground (arith, length-append payload rest) in
    rw (small, room, take-append payload rest, drop-append payload rest)

announced :
    (payload rest : List ℕ)
    → ltb max_frame (length payload) ≡ false
    → first_frame ((to_be_bytes (length payload) ++ payload) ++ rest) ≡ ok (some payload, rest)
unfolding first_frame to_be_bytes
announced payload rest small =
    ap (λ (n : ℕ). payload_of n (payload ++ rest)) (from_be-to_be (length payload) (ground arith))
    ∙ payload_of-append payload rest small

-- What was written for a payload is that payload's frame, with whatever follows it left.
pub first_frame-write :
    (payload frame rest : List ℕ)
    → write_frame payload ≡ ok frame
    → first_frame (frame ++ rest) ≡ ok (some payload, rest)
unfolding write_frame
first_frame-write payload frame rest h =
    let (_, fits, made) =
      >>=-eq-ok (bail_if (ltb max_frame (length payload)) (frame_too_large (length payload))) _ h in
    let small = bail_if-eq-ok _ _ fits in
    let e : frame ≡ to_be_bytes (length payload) ++ payload = cc in
    rw e (announced payload rest small)
