-- ===== src/Pairing/Code/RoundTrip.antt =====
-- A code that was encoded is decoded to itself, and only such texts are decoded.
use agent2agent.Base.{
  ℕ, ◌≡◌, ◌≢◌, Option, none, some, List, [], ◌++◌, arith, Text, nat_eq, text_eq, length, ok,
}
use agent2agent.Base.Chars.{as_bytes}
use agent2agent.Base.Chars.Trim.{IsSpace, trim-padded}
use agent2agent.Config.Name.{IsName, validate_name_iff}
use agent2agent.Config.Iroh.{Iroh}
use agent2agent.Pairing.Base64.{Base64}
use agent2agent.Pairing.Code.{
  InviteCode, encode, decode, decode_parts, decode_version, check_code, inviter_id, token_bytes,
}
use agent2agent.Pairing.Code.Parts.{
  AreNameChars, IsVersion, parts_of, split-encode, encode-NoSpace, decode-encode_version,
}

module _ (I : Iroh) (B : Base64) where
  -- What a code must hold for the other side to accept it.
  pub record IsMintable (code : InviteCode) : Type 0 where
    pub name : IsName code.name
    pub id_chars : AreNameChars code.id
    pub key : I.EndpointId
    pub id_key : inviter_id I B code ≡ ok key
    pub token_chars : AreNameChars code.token
    pub secret : List ℕ
    pub token_secret : B.decode (as_bytes code.token) ≡ some secret
    pub secret_length : length secret ≡ token_bytes
    pub version : IsVersion code.version

  decode_parts_of :
      (name id token : Text) (version : Option Text)
      → let code : InviteCode = record { name = name; id = id; token = token; version = version } in
        IsMintable code → decode_parts I B (parts_of code) ≡ ok code
  unfolding decode_parts check_code decode_version
  decode_parts_of name id token none m = ground (arith, (validate_name_iff name).1 m.name)
  decode_parts_of name id token (some v) m =
      rw (decode-encode_version v m.version) (ground (arith, (validate_name_iff name).1 m.name))

  encode-ne-nil : (code : InviteCode) → encode code ≢ []
  unfolding encode
  encode-ne-nil code h = cc

  -- A code with a valid name and version, the text of a key and the text of a token of twelve bytes is
  -- read back from what it is printed as, whatever white space the text has picked up on either side.
  pub decode-encode :
      (code : InviteCode) (pre post : Text)
      → IsMintable code
      → IsSpace pre
      → IsSpace post
      → decode I B (pre ++ (encode code ++ post)) ≡ ok code
  unfolding decode
  decode-encode code pre post m hpre hpost =
      rw
        (
          trim-padded pre (encode code) post hpre
              (encode-NoSpace code m.name.chars m.id_chars m.token_chars m.version)
              (encode-ne-nil code) hpost,
          split-encode code m.name.chars m.id_chars m.token_chars m.version,
        )
        (decode_parts_of code.name code.id code.token code.version m)
