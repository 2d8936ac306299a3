-- ===== src/Wire/Frame/Stream.antt =====
-- An `AsyncRead`: bytes that arrive in pieces of any size, and failures in between.
use agent2agent.Base.{
  ℕ, zero, suc, ◌+◌, ◌-◌, ◌≤◌, ◌<◌, ◌≡◌, refl, sym, ◌∙◌, inl, inr, List, [], ◌∷◌, ◌++◌, arith, leb,
  if◌then◌else◌, nat_eq, text_eq, Bool-cases, length, take, drop, length-append, take-inside,
  drop-inside, take-beyond, drop-beyond, Result, ok, err, ◌>>=◌, io_failed, unexpected_eof,
}

-- A piece holds at least one byte: reading none means that the stream has ended.
pub data Arrival : Type 0 where
  chunk : ℕ → List ℕ → Arrival
  failure : Arrival

abbrev pub Reader : Type 0
Reader = List Arrival

abbrev pub unread : List ℕ → Reader → Reader
unread [] r = r
unread (b ∷ bs) r = chunk b bs ∷ r

-- `read` into a buffer of `n` bytes
unfoldable pub read : ℕ → Reader → Result (List ℕ × Reader)
read n [] = ok ([], [])
read n (failure ∷ r) = err io_failed
read n (chunk b bs ∷ r) = ok (take n (b ∷ bs), unread (drop n (b ∷ bs)) r)

-- `read_exact` into a buffer of `n` bytes, which reads until it is full.
unfoldable pub read_exact : ℕ → Reader → Result (List ℕ × Reader)
read_exact zero r = ok ([], r)
read_exact (suc n) [] = err unexpected_eof
read_exact (suc n) (failure ∷ r) = err io_failed
read_exact (suc n) (chunk b bs ∷ r) =
    let more = read_exact (n - length bs) r in
    if leb n (length bs)
    then ok (take (suc n) (b ∷ bs), unread (drop n bs) r)
    else (do (rest, r') ← more; ok (b ∷ bs ++ rest, r'))

-- The bytes that a stream holds.
abbrev pub bytes_of : Reader → List ℕ
bytes_of [] = []
bytes_of (failure ∷ r) = bytes_of r
bytes_of (chunk b bs ∷ r) = (b ∷ bs) ++ bytes_of r

-- A stream that does not fail.
abbrev pub IsHealthy : Reader → Type 0
IsHealthy [] = Unit
IsHealthy (failure ∷ r) = ⊥
IsHealthy (chunk b bs ∷ r) = IsHealthy r

-- A read returns `a`, and leaves the bytes `rest` in a stream that does not fail either.
abbrev pub Yields {ℓ} : {A : Type ℓ} → Result (A × Reader) → A → List ℕ → Type ℓ
Yields m a rest = (r' : Reader) × (m ≡ ok (a, r')) × (bytes_of r' ≡ rest) × IsHealthy r'

pub bytes_of-unread : (bs : List ℕ) (r : Reader) → bytes_of (unread bs r) ≡ bs ++ bytes_of r
bytes_of-unread [] r = refl
bytes_of-unread (b ∷ bs) r = refl

pub unread-IsHealthy : (bs : List ℕ) (r : Reader) → IsHealthy r → IsHealthy (unread bs r)
unread-IsHealthy [] r h = h
unread-IsHealthy (b ∷ bs) r h = h

-- One piece, given what is read behind it.
read_piece :
    (n b : ℕ) (bs : List ℕ) (r : Reader)
    → IsHealthy r
    → ((k : ℕ)
        → n ≡ length bs + k
        → Yields (read_exact k r) (take k (bytes_of r)) (drop k (bytes_of r)))
    → Yields
        (read_exact (suc n) (chunk b bs ∷ r))
        (b ∷ take n (bs ++ bytes_of r))
        (drop n (bs ++ bytes_of r))
unfolding read_exact
read_piece n b bs r h more = elim (Bool-cases (leb n (length bs))) [
  | inl inside ↦
      let l : n ≤ length bs = ground arith in
      (
        unread (drop n bs) r,
        rw inside (rw (take-inside n bs (bytes_of r) l)),
        bytes_of-unread (drop n bs) r ∙ sym (drop-inside n bs (bytes_of r) l),
        unread-IsHealthy (drop n bs) r h,
      )
  | inr beyond ↦
      let e : n ≡ length bs + (n - length bs) = ground arith in
      let (r', got, left, h') = more (n - length bs) e in
      (
        r',
        rw beyond (rw got (rw (take-beyond n (n - length bs) bs (bytes_of r) e))),
        left ∙ sym (drop-beyond n (n - length bs) bs (bytes_of r) e),
        h',
      )
]

-- Reading `n` bytes takes the first `n`, however they arrive.
pub read_exact-Yields :
    (n : ℕ) (r : Reader)
    → IsHealthy r
    → n ≤ length (bytes_of r)
    → Yields (read_exact n r) (take n (bytes_of r)) (drop n (bytes_of r))
read_exact-Yields zero r h l = (r, unfold read_exact in refl, refl, h)
read_exact-Yields (suc n) [] h l = absurd (omega arith)
read_exact-Yields (suc n) (failure ∷ r) h l = absurd h
read_exact-Yields (suc n) (chunk b bs ∷ r) h l =
    read_piece n b bs r h
      (λ k e. read_exact-Yields k r h (omega (arith, length-append bs (bytes_of r))))

pub read_exact_short :
    (n : ℕ) (r : Reader)
    → IsHealthy r
    → length (bytes_of r) < n
    → read_exact n r ≡ err unexpected_eof
unfolding read_exact
read_exact_short zero r h l = absurd (omega arith)
read_exact_short (suc n) [] h l = refl
read_exact_short (suc n) (failure ∷ r) h l = absurd h
read_exact_short (suc n) (chunk b bs ∷ r) h l =
    let all : length bs + length (bytes_of r) < n = omega (arith, length-append bs (bytes_of r)) in
    let more : read_exact (n - length bs) r ≡ err unexpected_eof =
      read_exact_short (n - length bs) r h (omega arith) in
    ground arith
