-- ===== src/Wire/Frame/RoundTrip.antt =====
-- A sequence of frames, written by one side and read by the other.
use agent2agent.Wire.Frame.Refines.{read_frame-Refines}
use agent2agent.Wire.Frame.Stream.{bytes_of, IsHealthy, Yields, Reader}
use agent2agent.Wire.Frame.{read_frame, write_frame}
use agent2agent.Base.{
  ℕ, ◌≡◌, refl, ◌∙◌, none, some, List, [], ◌∷◌, ◌++◌, arith, nat_eq, text_eq, Result, ok, ◌>>=◌,
  >>=-eq-ok,
}
use agent2agent.Wire.Frame.Spec.{first_frame, first_frame-write}

-- The calls of `write_frame` on one stream. A payload that is refused ends them.
unfoldable pub write_all : List (List ℕ) → Result (List ℕ)
write_all [] = ok []
write_all (p ∷ ps) = do frame ← write_frame p; rest ← write_all ps; ok (frame ++ rest)

-- The calls of `read_frame` return the payloads, and then the end of the stream.
abbrev pub ReadsAll : List (List ℕ) → Reader → Type 0
ReadsAll [] r = Yields (read_frame r) none []
ReadsAll (p ∷ ps) r = (r' : Reader) × (read_frame r ≡ ok (some p, r')) × ReadsAll ps r'

nothing_left : (r : Reader) → IsHealthy r → bytes_of r ≡ [] → Yields (read_frame r) none []
nothing_left r h e =
    let f : first_frame (bytes_of r) ≡ ok (none, []) = rw e (unfold first_frame in refl) in
    rw f at (read_frame-Refines r h)

pub one_frame :
    (r : Reader) (payload frame rest : List ℕ)
    → IsHealthy r
    → write_frame payload ≡ ok frame
    → bytes_of r ≡ frame ++ rest
    → Yields (read_frame r) (some payload) rest
one_frame r payload frame rest h w e =
    let f : first_frame (bytes_of r) ≡ ok (some payload, rest) =
      rw e (first_frame-write payload frame rest w) in
    rw f at (read_frame-Refines r h)

-- What one side writes frame by frame the other side reads frame by frame, in the same order and
-- to the end, in whatever pieces the bytes arrive.
pub read-write_all :
    (ps : List (List ℕ)) (bytes : List ℕ) (r : Reader)
    → write_all ps ≡ ok bytes
    → IsHealthy r
    → bytes_of r ≡ bytes
    → ReadsAll ps r
unfolding write_all
read-write_all [] bytes r w h e = nothing_left r h (e ∙ ground arith)
read-write_all (p ∷ ps) bytes r w h e =
    let (frame, wf, w1) = >>=-eq-ok (write_frame p) _ w in
    let (rest, wr, w2) = >>=-eq-ok (write_all ps) _ w1 in
    let (r', got, left, h') = one_frame r p frame rest h wf (e ∙ cc) in
    (r', got, read-write_all ps rest r' wr h' left)
