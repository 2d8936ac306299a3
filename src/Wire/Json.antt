-- ===== src/Wire/Json.antt =====
-- `write_json` and `read_json` of src/wire.rs, over what the crate `serde_json` makes of a value.
use agent2agent.Wire.Frame.Stream.{Yields, bytes_of, IsHealthy, Reader}
use agent2agent.Base.{
  ℕ, ◌≡◌, Option, none, some, List, ◌++◌, nat_eq, text_eq, Result, ok, ◌>>=◌, context, ok_or,
  >>=-eq-ok, ok_or-eq-ok, context-eq-ok, serializing, deserializing, bad_json,
}
use agent2agent.Wire.Frame.{write_frame, read_frame}
use agent2agent.Wire.Frame.RoundTrip.{one_frame}

-- `to_vec` and `from_slice` at one type. `none` is a failure of either.
pub record Codec (A : Type 0) : Type 0 where
  pub to_vec : A → Option (List ℕ)
  pub from_slice : List ℕ → Option A

module _ {A : Type 0} (codec : Codec A) where
  unfoldable pub write_json : A → Result (List ℕ)
  write_json value = do
    bytes ← context serializing (ok_or bad_json (codec.to_vec value))
    write_frame bytes

  unfoldable pub read_json : Reader → Result (Option A × Reader)
  read_json r = do
    (frame, r') ← read_frame r
    elim frame [
      | none ↦ ok (none, r')
      | some bytes ↦ do
        value ← context deserializing (ok_or bad_json (codec.from_slice bytes))
        ok (some value, r')
    ]

  -- A value that was written is read back, where the codec reads back what it writes. That holds
  -- for every way in which the bytes arrive, and what follows the value stays in the stream.
  pub read-write_json :
      ((value : A) (bytes : List ℕ)
        → codec.to_vec value ≡ some bytes
        → codec.from_slice bytes ≡ some value)
      → (value : A) (frame rest : List ℕ) (r : Reader) → write_json value ≡ ok frame
      → IsHealthy r
      → bytes_of r ≡ frame ++ rest
      → Yields (read_json r) (some value) rest
  unfolding write_json read_json
  read-write_json law value frame rest r w h e =
      let (bytes, made, w1) =
        >>=-eq-ok (context serializing (ok_or bad_json (codec.to_vec value))) _ w in
      let known = law value bytes (ok_or-eq-ok _ _ (context-eq-ok _ _ made)) in
      let (r', got, left, h') = one_frame r bytes frame rest h w1 e in
      (r', rw got (rw known), left, h')
