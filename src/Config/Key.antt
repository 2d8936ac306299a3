-- ===== src/Config/Key.antt =====
-- `load_or_create_secret_key` of src/config.rs. A key is its bytes, and the file its text.
use agent2agent.Base.{
  ℕ, ◌≡◌, refl, sym, ◌∙◌, ◌≢◌, not, List, [], ◌∷◌, ◌++◌, arith, Text, ◌==◌, nat_eq, text_eq, length,
  Result, ok, err, ◌>>=◌, ◌>>◌, bail_if, context, secret_key_length, io_failed, secret_key_not_hex,
}
use agent2agent.Util.{to_hex, from_hex}
use agent2agent.Util.Hex.{AreBytes, to_hex-NoSpace, from_hex-to_hex}
use agent2agent.Base.Chars.Ascii.{trim-NoSpace}
use agent2agent.Base.Chars.Trim.{IsSpace, trim-padded}
use agent2agent.Base.Chars.{trim, is_whitespace}

-- What is there: no file, one that cannot be read, or a text.
pub data KeyFile : Type 0 where
  missing unreadable : KeyFile
  holds : Text → KeyFile

unfoldable pub read_key : Text → Result (List ℕ)
read_key contents = do
  bytes ← context secret_key_not_hex (from_hex contents)
  bail_if (not (length bytes == 32)) (secret_key_length (length bytes))
  ok bytes

-- `ensured`, `written` and `restricted` are how making the directory, writing the file and setting
-- its mode end; `generated` is what the random source makes.
unfoldable pub load_or_create_secret_key :
    Result (Unit {0})
    → Result (Unit {0})
    → Result (Unit {0})
    → List ℕ
    → KeyFile
    → Result (List ℕ) × KeyFile
load_or_create_secret_key ensured written restricted generated unreadable =
    (err io_failed, unreadable)
load_or_create_secret_key ensured written restricted generated (holds contents) =
    (read_key contents, holds contents)
load_or_create_secret_key ensured written restricted generated missing =
    let file = holds (to_hex generated ++ 10 ∷ []) in
    elim ensured [
      | err e ↦ (err e, missing)
      | ok _ ↦ elim written [ err e ↦ (err e, missing) | ok _ ↦ (restricted >> ok generated, file) ]
    ]

newline-IsSpace : IsSpace (10 ∷ [])
unfolding is_whitespace nat_eq
newline-IsSpace = (refl, tt)

same_trim : (a b : Text) → trim a ≡ trim b → from_hex a ≡ from_hex b
unfolding from_hex
same_trim a b e = rw e refl

reads_back :
    (key : List ℕ) → AreBytes key → to_hex key ≢ [] → from_hex (to_hex key ++ 10 ∷ []) ≡ ok key
reads_back key h n =
    let black = to_hex-NoSpace key h in
    let padded = trim-padded [] (to_hex key) (10 ∷ []) tt black n newline-IsSpace in
    same_trim (to_hex key ++ 10 ∷ []) (to_hex key) (padded ∙ sym (trim-NoSpace (to_hex key) black))
    ∙ from_hex-to_hex key h

written : (key : List ℕ) → length key ≡ 32 → to_hex key ≢ []
unfolding to_hex
written [] n = absurd (omega (arith, n))
written (b ∷ key) n = λ h. cc

-- A key of 32 bytes that was generated, written and restricted on a first run is the key that every later run
-- loads, whatever the random source makes then, and the file is not touched again.
pub load_or_create_secret_key-again :
    (key other : List ℕ) (e w r : Result (Unit {0}))
    → AreBytes key
    → length key ≡ 32
    → let (first, file) = load_or_create_secret_key (ok tt) (ok tt) (ok tt) key missing in
      (first ≡ ok key) × (load_or_create_secret_key e w r other file ≡ (ok key, file))
unfolding load_or_create_secret_key read_key
load_or_create_secret_key-again key other e w r h n =
    (refl, rw (reads_back key h (written key n)) (ground arith))
