-- ===== src/Wire/Frame/Refines.antt =====
-- `read_frame` does not depend on how the bytes arrive: it finds the first frame of what it reads.
use mathlib.Core.Path.{ap₂}
use agent2agent.Base.{
  ℕ, zero, suc, ◌+◌, ◌-◌, ◌≤◌, ◌<◌, ◌≡◌, refl, sym, ap, ◌∙◌, inl, inr, true, Option, none, some,
  List, [], ◌∷◌, ◌++◌, append-nil, append_assoc, arith, ltb, leb, if◌then◌else◌, ◌==◌, nat_eq,
  text_eq, Bool-cases, length, take, drop, length-append, take-beyond, drop-beyond,
  take-append-drop, length-take-le, Result, ok, err, Error, ended_in_header,
}
use agent2agent.Wire.Frame.Stream.{
  failure, unread-IsHealthy, bytes_of-unread, unread, chunk, Reader, read, bytes_of, IsHealthy,
  Yields, read_exact-Yields, read_exact_short,
}
use agent2agent.Wire.Frame.{read_header, read_frame, max_frame, from_be_bytes}
use agent2agent.Wire.Frame.Spec.{first_frame, payload_of}

-- `m` is `spec`: the same error, or the same value with the same bytes left in a healthy stream.
abbrev pub Refines {ℓ} : {A : Type ℓ} → Result (A × Reader) → Result (A × List ℕ) → Type ℓ
Refines m (err e) = m ≡ err e
Refines m (ok (a, rest)) = Yields m a rest

-- A header that has `filled` and needs `need` bytes more.
header_of : List ℕ → ℕ → List ℕ → Result (Option (List ℕ) × List ℕ)
header_of filled need bytes =
    if leb need (length bytes)
    then ok (some (filled ++ take need bytes), drop need bytes)
    else if length filled + length bytes == 0
    then ok (none, [])
    else err (ended_in_header (length filled + length bytes))

filled_header :
    (rounds : ℕ) (filled : List ℕ) (r : Reader)
    → IsHealthy r
    → length filled ≡ 4
    → Yields (read_header rounds filled r) (some (filled ++ [])) (bytes_of r)
filled_header zero filled r h e = (r, unfold read_header in rw append-nil, refl, h)
filled_header (suc rounds) filled r h e =
    (r, unfold read_header in rw append-nil (ground arith), refl, h)

-- Filling the header from `got` is the same as having it filled already.
header_of-append :
    (filled got more : List ℕ) (need : ℕ)
    → header_of filled (length got + need) (got ++ more) ≡ header_of (filled ++ got) need more
unfolding header_of
header_of-append filled got more need = ground (
  arith,
  length-append got more,
  length-append filled got,
  take-beyond (length got + need) need got more,
  drop-beyond (length got + need) need got more,
  append_assoc filled got (take need more),
)

-- A round in which something is read, and one that meets the end.
round :
    (rounds m b : ℕ) (filled bs : List ℕ) (r : Reader)
    → length filled + suc m ≡ 4
    → read_header (suc rounds) filled (chunk b bs ∷ r)
      ≡ read_header rounds (filled ++ (b ∷ take m bs)) (unread (drop m bs) r)
unfolding read_header read
round rounds m b filled bs r e =
    let more : ltb (length filled) 4 ≡ true = ground arith in
    let left : 4 - length filled ≡ suc m = omega arith in rw (more, left)

header_of_ended :
    (m a : ℕ) (filled : List ℕ)
    → header_of (a ∷ filled) (suc m) [] ≡ err (ended_in_header (suc (length filled)))
unfolding header_of
header_of_ended m a filled = ground arith

header_of-none : (m : ℕ) → header_of [] (suc m) [] ≡ ok (none, [])
unfolding header_of
header_of-none m = ground arith

header_short :
    (bytes : List ℕ)
    → (0 < length bytes) × (length bytes < 4)
    → header_of [] 4 bytes ≡ err (ended_in_header (length bytes))
unfolding header_of
header_short bytes h = ground arith

header_long :
    (a b c d : ℕ) (rest : List ℕ)
    → header_of [] 4 (a ∷ b ∷ c ∷ d ∷ rest) ≡ ok (some (a ∷ b ∷ c ∷ d ∷ []), rest)
unfolding header_of
header_long a b c d rest = ground arith

header_of_full :
    (filled bytes : List ℕ) → header_of filled 0 bytes ≡ ok (some (filled ++ []), bytes)
unfolding header_of
header_of_full filled bytes = ground arith

last_round :
    (rounds m : ℕ) (filled : List ℕ)
    → length filled + suc m ≡ 4
    → Refines (read_header (suc rounds) filled []) (header_of filled (suc m) [])
unfolding read_header read
last_round rounds m [] e = rw header_of-none ([], ground arith, refl, tt)
last_round rounds m (a ∷ filled) e = rw header_of_ended (ground arith)

header_of-piece :
    (m b : ℕ) (filled bs more : List ℕ)
    → header_of filled (suc m) (b ∷ (bs ++ more))
      ≡ header_of (filled ++ (b ∷ take m bs)) (m - length (take m bs)) (drop m bs ++ more)
header_of-piece m b filled bs more =
    let need : suc m ≡ suc (length (take m bs)) + (m - length (take m bs)) =
      omega (arith, length-take-le m bs) in
    let whole : bs ++ more ≡ take m bs ++ (drop m bs ++ more) =
      ap (λ l. l ++ more) (sym (take-append-drop m bs))
      ∙ append_assoc (take m bs) (drop m bs) more in
    ap₂ (λ (n : ℕ) (l : List ℕ). header_of filled n (b ∷ l)) need whole
    ∙ header_of-append filled (b ∷ take m bs) (drop m bs ++ more) (m - length (take m bs))

read_header-Refines :
    (rounds need : ℕ) (filled : List ℕ) (r : Reader)
    → IsHealthy r
    → need ≤ rounds
    → length filled + need ≡ 4
    → Refines (read_header rounds filled r) (header_of filled need (bytes_of r))
read_header-Refines rounds zero filled r h l e =
    rw header_of_full (filled_header rounds filled r h (omega arith))
read_header-Refines zero (suc m) filled r h l e = absurd (omega arith)
read_header-Refines (suc rounds) (suc m) filled [] h l e = last_round rounds m filled e
read_header-Refines (suc rounds) (suc m) filled (failure ∷ r) h l e = absurd h
read_header-Refines (suc rounds) (suc m) filled (chunk b bs ∷ r) h l e =
    rw
      (
        round rounds m b filled bs r e,
        header_of-piece m b filled bs (bytes_of r),
        ← bytes_of-unread (drop m bs) r,
      )
      (read_header-Refines rounds (m - length (take m bs)) (filled ++ (b ∷ take m bs))
        (unread (drop m bs) r) (unread-IsHealthy (drop m bs) r h) (omega arith)
        (omega (arith, length-take-le m bs, length-append filled (b ∷ take m bs))))

module _ (r : Reader) where
  frame_of_err : (e : Error) → read_header 4 [] r ≡ err e → read_frame r ≡ err e
  unfolding read_frame
  frame_of_err e h = rw h

  frame_of_none : Yields (read_header 4 [] r) none [] → Yields (read_frame r) none []
  unfolding read_frame
  frame_of_none (r', e, left, h) = (r', rw e, left, h)

  frame_of_header :
      (len_buf rest : List ℕ)
      → Yields (read_header 4 [] r) (some len_buf) rest
      → Refines (read_frame r) (payload_of (from_be_bytes len_buf) rest)
  unfolding read_frame payload_of
  frame_of_header len_buf rest (r', e, left, h) =
      rw (← left) (elim (Bool-cases (ltb max_frame (from_be_bytes len_buf))) [
        | inl large ↦ rw large (rw e (rw large))
        | inr fits ↦
            rw fits (elim (Bool-cases (leb (from_be_bytes len_buf) (length (bytes_of r')))) [
              | inl enough ↦
                  let (r'', got, left', h') =
                    read_exact-Yields (from_be_bytes len_buf) r' h (ground arith) in
                  rw enough (r'', rw e (rw fits (rw got)), left', h')
              | inr short ↦ rw short (
                  rw e
                    (rw fits (rw (read_exact_short (from_be_bytes len_buf) r' h (ground arith)))))
            ])
      ])

  frame_of :
      (bytes : List ℕ)
      → Refines (read_header 4 [] r) (header_of [] 4 bytes)
      → Refines (read_frame r) (first_frame bytes)
  unfolding first_frame
  frame_of [] h = frame_of_none (rw (header_of-none 3) at h)
  frame_of (a ∷ []) h =
      frame_of_err (ended_in_header 1) (rw (header_short (a ∷ []) (omega arith)) at h)
  frame_of (a ∷ b ∷ []) h =
      frame_of_err (ended_in_header 2) (rw (header_short (a ∷ b ∷ []) (omega arith)) at h)
  frame_of (a ∷ b ∷ c ∷ []) h =
      frame_of_err (ended_in_header 3) (rw (header_short (a ∷ b ∷ c ∷ []) (omega arith)) at h)
  frame_of (a ∷ b ∷ c ∷ d ∷ rest) h =
      frame_of_header (a ∷ b ∷ c ∷ d ∷ []) rest (rw (header_long a b c d rest) at h)

-- However the bytes of a healthy stream arrive, `read_frame` returns what the first frame of them
-- is, leaves what is behind it, reports a stream that ends between frames as such, and fails with
-- the error that the first frame fails with: an end inside the header, a length over the limit,
-- an end inside the payload.
pub read_frame-Refines :
    (r : Reader) → IsHealthy r → Refines (read_frame r) (first_frame (bytes_of r))
read_frame-Refines r h = frame_of r (bytes_of r) (read_header-Refines 4 4 [] r h (omega arith) refl)
