-- ===== src/Config/Name.antt =====
-- `validate_name` and `validate_session_id` of src/config.rs
use agent2agent.Base.{
  ℕ, ◌≤◌, ◌<◌, ◌≡◌, ◌≢◌, ◌↔◌, Bool, true, not, ◌||◌, [], arith, ltb, Text, ◌==◌, nat_eq, text_eq,
  length, all, All, All-map, all→All, All→all, Result, ok, ◌>>◌, bail_if, empty_name, name_too_long,
  bad_name_char, bad_session_length, bad_session_digits,
}
use agent2agent.Base.Chars.{is_ascii_alphanumeric, is_ascii_hexdigit, byte_len}
use agent2agent.Base.Chars.Ascii.{IsAscii, as_bytes-ascii}

unfoldable pub is_name_char : ℕ → Bool
unfolding is_ascii_alphanumeric
is_name_char c = is_ascii_alphanumeric c || c == b'-' || c == b'_'

unfoldable pub validate_name : Text → Result (Unit {0})
validate_name name = do
  bail_if (name == []) empty_name
  bail_if (ltb 64 (byte_len name)) name_too_long
  bail_if (not (all is_name_char name)) (bad_name_char name)
  ok tt

unfoldable pub validate_session_id : Text → Result (Unit {0})
validate_session_id id = do
  bail_if (id == [] || ltb 32 (byte_len id)) (bad_session_length id)
  bail_if (not (all is_ascii_hexdigit id)) (bad_session_digits id)
  ok tt

-- What a name is: one to 64 letters, digits, dashes and underscores.
pub record IsName (name : Text) : Type 0 where
  pub nonempty : name ≢ []
  pub short : length name ≤ 64
  pub chars : All (λ c. is_name_char c ≡ true) name

pub name_char_ascii : (c : ℕ) → is_name_char c ≡ true → c < 128
unfolding is_name_char
name_char_ascii c h = ground arith

hexdigit_ascii : (c : ℕ) → is_ascii_hexdigit c ≡ true → c < 128
unfolding is_ascii_hexdigit
hexdigit_ascii c h = ground arith

byte_len-ascii : (s : Text) → IsAscii s → byte_len s ≡ length s
unfolding byte_len
byte_len-ascii s h = rw (as_bytes-ascii s h)

module _ (name : Text) (accepted : validate_name name ≡ ok tt) where
  accepted_chars : All (λ c. is_name_char c ≡ true) name
  unfolding validate_name
  accepted_chars = all→All is_name_char name (ground arith)

  accepted_len : byte_len name ≤ 64
  unfolding validate_name
  accepted_len = ground arith

  accepted_IsName : IsName name
  unfolding validate_name
  accepted_IsName = record {
    nonempty = ground arith;
    short =
        omega
          (arith, accepted_len, byte_len-ascii name (All-map name_char_ascii name accepted_chars));
    chars = accepted_chars;
  }

IsName-accepted : (name : Text) → IsName name → validate_name name ≡ ok tt
unfolding validate_name
IsName-accepted name n = ground (
  arith,
  All→all is_name_char name n.chars,
  byte_len-ascii name (All-map name_char_ascii name n.chars),
)

-- `validate_name` accepts the texts of one to 64 letters, digits, dashes and underscores, and
-- nothing else.
pub validate_name_iff : (name : Text) → (validate_name name ≡ ok tt) ↔ IsName name
validate_name_iff name = (accepted_IsName name, IsName-accepted name)

-- What a session id is: one to 32 hexadecimal digits.
pub record IsSessionId (id : Text) : Type 0 where
  pub nonempty : id ≢ []
  pub short : length id ≤ 32
  pub digits : All (λ c. is_ascii_hexdigit c ≡ true) id

module _ (id : Text) (accepted : validate_session_id id ≡ ok tt) where
  accepted_digits : All (λ c. is_ascii_hexdigit c ≡ true) id
  unfolding validate_session_id
  accepted_digits = all→All is_ascii_hexdigit id (ground arith)

  accepted_session_len : byte_len id ≤ 32
  unfolding validate_session_id
  accepted_session_len = ground arith

  pub accepted_IsSessionId : IsSessionId id
  unfolding validate_session_id
  accepted_IsSessionId = record {
    nonempty = ground arith;
    short = omega (
      arith,
      accepted_session_len,
      byte_len-ascii id (All-map hexdigit_ascii id accepted_digits),
    );
    digits = accepted_digits;
  }

IsSessionId-accepted : (id : Text) → IsSessionId id → validate_session_id id ≡ ok tt
unfolding validate_session_id
IsSessionId-accepted id n = ground (
  arith,
  All→all is_ascii_hexdigit id n.digits,
  byte_len-ascii id (All-map hexdigit_ascii id n.digits),
)

-- `validate_session_id` accepts the texts of one to 32 hexadecimal digits, and nothing else.
pub validate_session_id_iff : (id : Text) → (validate_session_id id ≡ ok tt) ↔ IsSessionId id
validate_session_id_iff id = (accepted_IsSessionId id, IsSessionId-accepted id)
