-- ===== src/Pairing/Code/Accepted.antt =====
-- What `decode` accepts.
use mathlib.Core.Path.{ap₂}
use agent2agent.Base.Chars.Split.{join-split, split}
use agent2agent.Config.Name.{validate_name}
use agent2agent.Base.Chars.{as_bytes, is_ascii_digit, join, trim, replace}
use agent2agent.Config.Iroh.{Iroh}
use agent2agent.Base.{
  ℕ, ◌≡◌, refl, sym, ap, ◌∙◌, true, not, ◌||◌, Option, none, some, List, [], ◌∷◌, append-nil, arith,
  Text, ◌==◌, nat_eq, text_eq, length, all, All, all→All, ok, bail_if, context, ok_or, >>=-eq-ok,
  ok_or-eq-ok, context-eq-ok, bail_if-eq-ok, token_length, malformed_token, invalid_endpoint_id,
  invalid_peer_name, malformed_version, not_an_invite_code,
}
use agent2agent.Pairing.Base64.{Base64}
use agent2agent.Pairing.Code.{
  token_bytes, decode, inviter_id, code_prefix, encode_version, is_version_char, InviteCode,
  decode_parts, decode_version, encode, check_code,
}

module _ (I : Iroh) (B : Base64) where
  -- What a code that was accepted holds.
  pub record IsAccepted (code : InviteCode) : Type 0 where
    pub name : validate_name code.name ≡ ok tt
    pub key : I.EndpointId
    pub id_key : inviter_id I B code ≡ ok key
    pub secret : List ℕ
    pub token_secret : B.decode (as_bytes code.token) ≡ some secret
    pub secret_length : length secret ≡ token_bytes

  module _ (prefix name id token : Text) (raw : Option Text) (code : InviteCode)
      (accepted : check_code I B prefix name id token raw ≡ ok code) where
    check_code-inv :
        (prefix ≡ code_prefix)
        × ((version : Option Text) × (decode_version raw ≡ ok version)
            × (code ≡ record { name = name; id = id; token = token; version = version }))
        × IsAccepted code
    unfolding check_code
    check_code-inv =
        let (_, p, h1) =
          >>=-eq-ok (bail_if (not (prefix == code_prefix)) not_an_invite_code) _ accepted in
        let (version, v, h2) = >>=-eq-ok (decode_version raw) _ h1 in
        let made : InviteCode = record { name = name; id = id; token = token; version = version } in
        let (u, n, h3) = >>=-eq-ok (context invalid_peer_name (validate_name name)) _ h2 in
        let (key, k, h4) = >>=-eq-ok (context invalid_endpoint_id (inviter_id I B made)) _ h3 in
        let (secret, t, h5) = >>=-eq-ok (ok_or malformed_token (B.decode (as_bytes token))) _ h4 in
        let (_, l, h6) =
          >>=-eq-ok (bail_if (not (length secret == token_bytes)) (token_length (length secret))) _
            h5 in
        let e : code ≡ made = cc in
        let is_prefix = bail_if-eq-ok _ _ p in
        let is_long = bail_if-eq-ok _ _ l in
        (
          ground arith,
          (version, v, e),
          rw e record {
            name = context-eq-ok _ _ n;
            key = key;
            id_key = context-eq-ok _ _ k;
            secret = secret;
            token_secret = ok_or-eq-ok _ _ t;
            secret_length = ground arith;
          },
        )

  undash :
      (raw : Text)
      → All (λ c. is_version_char c ≡ true) raw
      → replace b'.' b'-' (replace b'-' b'.' raw) ≡ raw
  unfolding replace
  undash [] h = refl
  undash (c ∷ raw) h =
      ap₂ (λ (x : ℕ) (r : Text). x ∷ r)
        (unfold is_version_char is_ascii_digit in ground (arith, h.0)) (undash raw h.1)

  -- The version's part of a code is printed again as it was read.
  encode_version-decode :
      (raw : Text) (version : Option Text)
      → decode_version (some raw) ≡ ok version
      → encode_version version ≡ b'.' ∷ raw
  unfolding decode_version
  encode_version-decode raw version h =
      let (_, p, h1) =
        >>=-eq-ok (bail_if (raw == [] || not (all is_version_char raw)) (malformed_version raw)) _
          h in
      let fine = bail_if-eq-ok _ _ p in
      let e : version ≡ some (replace b'-' b'.' raw) = cc in
      rw e (ap (λ r. b'.' ∷ r) (undash raw (all→All is_version_char raw (ground arith))))

  decode_parts-Accepted :
      (parts : List Text) (code : InviteCode)
      → decode_parts I B parts ≡ ok code
      → (join (b'.' ∷ []) parts ≡ encode code) × IsAccepted code
  unfolding decode_parts join encode
  decode_parts-Accepted (prefix ∷ name ∷ id ∷ token ∷ []) code h =
      let (p, (version, v, e), a) = check_code-inv prefix name id token none code h in
      let k : version ≡ none = unfold decode_version in cc v in (rw (p, e, k) (rw append-nil), a)
  decode_parts-Accepted (prefix ∷ name ∷ id ∷ token ∷ raw ∷ []) code h =
      let (p, (version, v, e), a) = check_code-inv prefix name id token (some raw) code h in
      (rw (p, e, encode_version-decode raw version v), a)
  decode_parts-Accepted parts code h = cc

  -- `decode` accepts nothing but printed codes: what it returns prints as the text without the
  -- white space around it, its name is valid, its id is a key and its token holds twelve bytes.
  pub decode-Accepted :
      (raw : Text) (code : InviteCode)
      → decode I B raw ≡ ok code
      → (encode code ≡ trim raw) × IsAccepted code
  unfolding decode
  decode-Accepted raw code h =
      let (e, a) = decode_parts-Accepted (split b'.' (trim raw)) code h in
      (sym e ∙ join-split b'.' (trim raw), a)
