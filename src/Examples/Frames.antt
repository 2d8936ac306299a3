-- ===== src/Examples/Frames.antt =====
-- Frames, and the queue of received messages.
use agent2agent.Base.{ℕ, refl, some, List, [], ◌∷◌, nat_eq, text_eq}
use agent2agent.Examples.World.{accepting}
use agent2agent.Wire.Frame.{write_frame, read_frame, to_be_bytes}
use agent2agent.Wire.Frame.Stream.{Reader, chunk, bytes_of}
use agent2agent.Wire.Frame.Spec.{first_frame}
use agent2agent.Wire.Frame.Refines.{Refines, read_frame-Refines}
use agent2agent.Wire.Frame.RoundTrip.{write_all, ReadsAll, read-write_all}
use agent2agent.Wire.Json.{Codec}

read_frame-Refines_example : Refines (read_frame accepting) (first_frame (bytes_of accepting))
read_frame-Refines_example = read_frame-Refines accepting tt

-- Two frames that arrive in pieces of another size.
abbrev pieces : Reader
pieces = chunk 0 (0 ∷ []) ∷ chunk 0 (1 ∷ 5 ∷ 0 ∷ 0 ∷ []) ∷ chunk 0 (2 ∷ 6 ∷ 7 ∷ []) ∷ []

read-write_all_example : ReadsAll ((5 ∷ []) ∷ (6 ∷ 7 ∷ []) ∷ []) pieces
unfolding write_all write_frame to_be_bytes
read-write_all_example =
    read-write_all ((5 ∷ []) ∷ (6 ∷ 7 ∷ []) ∷ []) (0 ∷ 0 ∷ 0 ∷ 1 ∷ 5 ∷ 0 ∷ 0 ∷ 0 ∷ 2 ∷ 6 ∷ 7 ∷ [])
      pieces refl tt refl

abbrev byte_codec : Codec (List ℕ)
byte_codec = record { to_vec = λ bytes. some bytes; from_slice = λ bytes. some bytes }
