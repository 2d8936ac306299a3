-- ===== src/Pairing/Code.antt =====
-- `InviteCode` of src/pairing.rs: the text that a user carries from one chat to the other.
pub mod Parts
pub mod RoundTrip
pub mod Accepted
use agent2agent.Base.{
  ℕ, zero, suc, ◌+◌, ◌-◌, ◌*◌, ◌/◌, ◌%◌, ◌^◌, ◌≤◌, ◌<◌, ◌≡◌, refl, sym, ap, ◌∙◌, ◌≢◌, ◌↔◌, ◌⊎◌, inl,
  inr, Bool, true, false, not, ◌&&◌, ◌||◌, Option, none, some, List, [], ◌∷◌, ◌++◌, map, append-nil,
  append_assoc, arith, ltb, leb, if◌then◌else◌, Text, text, ◌==◌, nat_eq, text_eq, Bool-cases,
  Option-cases, ==_iff, length, get_elem?, take, drop, all, All, All-append, All-map, all→All,
  All→all, length-append, length-map, append-cancel_left, take-append, drop-append, Result, ok, err,
  ◌>>=◌, ◌>>◌, bail_if, context, ok_or, is_ok, within, Context, Error, >>=-eq-ok, ok_or-eq-ok,
  invalid_peer_name, invalid_endpoint_id, part_count, not_an_invite_code, malformed_version,
  id_not_base64url, id_length, id_rejected, malformed_token, token_length,
}
use agent2agent.Base.Chars.{as_bytes, is_ascii_digit, replace, trim}
use agent2agent.Base.Chars.Split.{split}
use agent2agent.Config.Name.{validate_name}
use agent2agent.Config.Iroh.{Iroh}
use agent2agent.Pairing.Base64.{Base64}

abbrev pub code_prefix : Text
code_prefix = text "a2a1"

abbrev pub token_bytes : ℕ
token_bytes = 12

abbrev pub default_ttl_secs : ℕ
default_ttl_secs = 3600

pub record InviteCode : Type 0 where
  pub name : Text
  pub id : Text
  pub token : Text
  pub version : Option Text

-- The version's part of a code, with its dot.
abbrev pub encode_version : Option Text → Text
encode_version none = []
encode_version (some version) = b'.' ∷ replace b'.' b'-' version

unfoldable pub encode : InviteCode → Text
encode code =
    code_prefix
    ++ (b'.'
        ∷ (code.name ++ (b'.' ∷ (code.id ++ (b'.' ∷ (code.token ++ encode_version code.version))))))

unfoldable pub is_version_char : ℕ → Bool
is_version_char c = is_ascii_digit c || c == b'-'

unfoldable pub decode_version : Option Text → Result (Option Text)
decode_version none = ok none
decode_version (some raw) = do
  bail_if (raw == [] || not (all is_version_char raw)) (malformed_version raw)
  ok (some (replace b'-' b'.' raw))

module _ (I : Iroh) (B : Base64) where
  open I use {EndpointId}

  -- `endpoint_id`: the inviter's key.
  unfoldable pub inviter_id : InviteCode → Result EndpointId
  inviter_id code = do
    bytes ← ok_or id_not_base64url (B.decode (as_bytes code.id))
    bail_if (not (length bytes == 32)) (id_length (length bytes))
    ok_or id_rejected (I.from_bytes bytes)

  unfoldable pub encode_id : EndpointId → Text
  encode_id id = B.encode (I.as_bytes id)

  -- `bytes` is what the random source fills the token with.
  unfoldable pub new_token : List ℕ → Text
  new_token bytes = B.encode bytes

  -- The checks after the parts are counted.
  unfoldable pub check_code : Text → Text → Text → Text → Option Text → Result InviteCode
  check_code prefix name id token raw_version = do
    bail_if (not (prefix == code_prefix)) not_an_invite_code
    version ← decode_version raw_version
    let code : InviteCode = record { name = name; id = id; token = token; version = version }
    context invalid_peer_name (validate_name name)
    context invalid_endpoint_id (inviter_id code)
    bytes ← ok_or malformed_token (B.decode (as_bytes token))
    bail_if (not (length bytes == token_bytes)) (token_length (length bytes))
    ok code

  unfoldable pub decode_parts : List Text → Result InviteCode
  decode_parts (prefix ∷ name ∷ id ∷ token ∷ []) = check_code prefix name id token none
  decode_parts (prefix ∷ name ∷ id ∷ token ∷ version ∷ []) =
      check_code prefix name id token (some version)
  decode_parts parts = err (part_count (length parts))

  unfoldable pub decode : Text → Result InviteCode
  decode raw = decode_parts (split b'.' (trim raw))
