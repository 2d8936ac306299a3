-- ===== src/Pairing/Code/Parts.antt =====
-- The characters of a code, and the parts that it splits into.
use agent2agent.Base.Chars.Ascii.{NoSpace}
use agent2agent.Base.Chars.Split.{split-lacking, split-piece, Lacks, split}
use mathlib.Core.Path.{ap₂}
use agent2agent.Base.{
  ℕ, ◌≡◌, refl, ap, ◌∙◌, ◌≢◌, true, false, ◌||◌, Option, none, some, List, [], ◌∷◌, ◌++◌,
  append-nil, arith, if◌then◌else◌, Text, ◌==◌, nat_eq, text_eq, All, All-append, All-map, All→all,
  ok,
}
use agent2agent.Base.Chars.{is_ascii_digit, is_whitespace, replace}
use agent2agent.Config.Name.{is_name_char}
use agent2agent.Pairing.Code.{
  encode, encode_version, InviteCode, code_prefix, is_version_char, decode_version,
}

-- The characters of a name, an id and a token.
abbrev pub AreNameChars : Text → Type 0
AreNameChars = All (λ c. is_name_char c ≡ true)

-- A version consists of digits and dots, and has at least one of them.
abbrev pub IsVersion : Option Text → Type 0
IsVersion none = Unit
IsVersion (some v) = (v ≢ []) × All (λ c. (is_ascii_digit c || c == b'.') ≡ true) v

pub name_char : (c : ℕ) → is_name_char c ≡ true → ((c == b'.') ≡ false) × (is_whitespace c ≡ false)
unfolding is_name_char is_whitespace
name_char c h = ground arith

version_char :
    (c : ℕ)
    → (is_ascii_digit c || c == b'.') ≡ true
    → let d : ℕ = if c == b'.' then b'-' else c in
      (is_version_char d ≡ true)
      × ((d == b'.') ≡ false)
      × (is_whitespace d ≡ false)
      × ((if d == b'-' then b'.' else d) ≡ c)
unfolding is_version_char is_whitespace is_ascii_digit
version_char c h = ground arith

abbrev IsVersionText : Text → Type 0
IsVersionText = All (λ c. (is_ascii_digit c || c == b'.') ≡ true)

printed_chars :
    (v : Text)
    → IsVersionText v
    → All (λ c. is_version_char c ≡ true) (replace b'.' b'-' v)
      × Lacks b'.' (replace b'.' b'-' v)
      × NoSpace (replace b'.' b'-' v)
      × (replace b'-' b'.' (replace b'.' b'-' v) ≡ v)
unfolding replace
printed_chars [] h = (tt, tt, tt, refl)
printed_chars (c ∷ v) h =
    let (a, b, d, e) = version_char c h.0 in
    let (all_a, bs, ds, es) = printed_chars v h.1 in
    ((a, all_a), (b, bs), (d, ds), ap₂ (λ (x : ℕ) (r : Text). x ∷ r) e es)

printed-ne-nil : (v : Text) → v ≢ [] → replace b'.' b'-' v ≢ []
unfolding replace
printed-ne-nil [] n e = n refl
printed-ne-nil (c ∷ v) n e = cc

-- The printed version is read back as the version.
pub decode-encode_version :
    (v : Text) → IsVersion (some v) → decode_version (some (replace b'.' b'-' v)) ≡ ok (some v)
unfolding decode_version
decode-encode_version v h =
    let (chars, lacks, spaceless, back) = printed_chars v h.1 in
    ground (arith, printed-ne-nil v h.0, All→all is_version_char (replace b'.' b'-' v) chars)

abbrev version_parts : Option Text → List Text
version_parts none = []
version_parts (some v) = replace b'.' b'-' v ∷ []

-- The parts of a code, as `split` sees them.
abbrev pub parts_of : InviteCode → List Text
parts_of code = code_prefix ∷ code.name ∷ code.id ∷ code.token ∷ version_parts code.version

names-lack : (s : Text) → AreNameChars s → Lacks b'.' s
names-lack s = All-map (λ c k. (name_char c k).0) s

names-NoSpace : (s : Text) → AreNameChars s → NoSpace s
names-NoSpace s = All-map (λ c k. (name_char c k).1) s

prefix_chars : AreNameChars code_prefix
unfolding is_name_char
prefix_chars = (refl, (refl, (refl, (refl, tt))))

split-last :
    (token : Text) (version : Option Text)
    → AreNameChars token
    → IsVersion version
    → split b'.' (token ++ encode_version version) ≡ token ∷ version_parts version
split-last token none h v = rw append-nil (split-lacking b'.' token (names-lack token h))
split-last token (some w) h v =
    split-piece b'.' token (replace b'.' b'-' w) (names-lack token h)
    ∙ ap (λ r. token ∷ r) (split-lacking b'.' (replace b'.' b'-' w) (printed_chars w v.1).1)

last-NoSpace : (version : Option Text) → IsVersion version → NoSpace (encode_version version)
unfolding is_whitespace nat_eq
last-NoSpace none v = tt
last-NoSpace (some w) v = (refl, (printed_chars w v.1).2)

dot_NoSpace : (s : Text) → NoSpace s → NoSpace (b'.' ∷ s)
unfolding is_whitespace nat_eq
dot_NoSpace s h = (refl, h)

piece-NoSpace : (s r : Text) → AreNameChars s → NoSpace r → NoSpace (s ++ (b'.' ∷ r))
piece-NoSpace s r h k =
    All-append (λ c. is_whitespace c ≡ false) s (b'.' ∷ r) (names-NoSpace s h) (dot_NoSpace r k)

module _ (code : InviteCode) (name : AreNameChars code.name) (id : AreNameChars code.id)
    (token : AreNameChars code.token) (version : IsVersion code.version) where
  pub split-encode : split b'.' (encode code) ≡ parts_of code
  unfolding encode
  split-encode = rw (
    split-piece b'.' code_prefix _ (names-lack code_prefix prefix_chars),
    split-piece b'.' code.name _ (names-lack code.name name),
    split-piece b'.' code.id _ (names-lack code.id id),
    split-last code.token code.version token version,
  )

  pub encode-NoSpace : NoSpace (encode code)
  unfolding encode
  encode-NoSpace = piece-NoSpace code_prefix _ prefix_chars (
      piece-NoSpace code.name _ name (
        piece-NoSpace code.id _ id (
          All-append (λ c. is_whitespace c ≡ false) code.token (encode_version code.version)
            (names-NoSpace code.token token) (last-NoSpace code.version version))))
