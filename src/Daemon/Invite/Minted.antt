-- ===== src/Daemon/Invite/Minted.antt =====
-- `create_invite` of src/daemon.rs and `decode` of src/pairing.rs: the code that is handed out is
-- read by the other side, and its token is the one that the invite waits for.
use agent2agent.Base.{
  ℕ, ◌+◌, ◌<◌, ◌≡◌, refl, sym, ap, ◌∙◌, inl, inr, ◌||◌, Option, some, List, [], append-nil, arith,
  Text, ◌==◌, nat_eq, text_eq, length, All, All-map, all→All, ok, Result-cases,
}
use agent2agent.Base.Chars.{as_bytes, is_ascii_digit}
use agent2agent.Base.Chars.Ascii.{IsAscii, as_bytes-ascii}
use agent2agent.Config.Iroh.{Iroh, IsLawful as IsLawfulIroh}
use agent2agent.Config.Name.{validate_name, validate_name_iff, name_char_ascii}
use agent2agent.Daemon.{State, PendingInvite}
use agent2agent.Daemon.Invite.{create_invite, minted}
use agent2agent.Pairing.Base64.{Base64, IsLawful}
use agent2agent.Pairing.Code.{InviteCode, encode, decode, inviter_id, encode_id, new_token}
use agent2agent.Pairing.Code.Parts.{IsVersion, AreNameChars}
use agent2agent.Pairing.Code.RoundTrip.{IsMintable, decode-encode}
use agent2agent.Pairing.Join.{version}

version-IsVersion : IsVersion (some version)
unfolding is_ascii_digit nat_eq
version-IsVersion = (λ h. cc, all→All (λ c. is_ascii_digit c || c == b'.') version refl)

names-IsAscii : (s : Text) → AreNameChars s → IsAscii s
names-IsAscii s h = All-map name_char_ascii s h

module _ (I : Iroh) (B : Base64) (L : IsLawful B) where
  decode_text :
      (bytes : List ℕ)
      → All (λ b. b < 256) bytes
      → B.decode (as_bytes (B.encode bytes)) ≡ some bytes
  decode_text bytes h =
      ap B.decode
        (as_bytes-ascii (B.encode bytes) (names-IsAscii (B.encode bytes) (L.alphabet bytes)))
      ∙ L.decode-encode bytes h

  module _ (J : IsLawfulIroh I) (id : I.EndpointId)
      (bytes : All (λ b. b < 256) (I.as_bytes id)) where
    minted-id : (name : Text) (random : List ℕ) → inviter_id I B (minted I B id name random) ≡ ok id
    unfolding inviter_id encode_id nat_eq
    minted-id name random =
        rw (decode_text (I.as_bytes id) bytes)
          (rw (J.length-as_bytes id) (rw (J.from_bytes-as_bytes id) refl))

    minted-IsMintable :
        (name : Text) (random : List ℕ)
        → validate_name name ≡ ok tt
        → All (λ b. b < 256) random
        → length random ≡ 12
        → IsMintable I B (minted I B id name random)
    unfolding encode_id new_token
    minted-IsMintable name random valid r n = record {
      name = (validate_name_iff name).0 valid;
      id_chars = L.alphabet (I.as_bytes id);
      key = id;
      id_key = minted-id name random;
      token_chars = L.alphabet random;
      secret = random;
      token_secret = decode_text random r;
      secret_length = n;
      version = version-IsVersion;
    }

    -- Where an invite is opened with twelve random bytes, and the encodings of ids and bytes are
    -- read back as what they encode, the code that is handed out is read as one for this machine, and
    -- its token is the one that the invite waits for, under the name that was given.
    pub create_invite-decode :
        (now : ℕ) (random : List ℕ) (name : Text) (greeting : Option Text) (ttl : ℕ) (s : State I)
        (raw : Text)
        → s.id ≡ id
        → All (λ b. b < 256) random
        → length random ≡ 12
        → (create_invite I B now random name greeting ttl s).0 ≡ ok raw
        → (code : InviteCode) × (p : PendingInvite) × (decode I B raw ≡ ok code)
          × (inviter_id I B code ≡ ok id)
          × ((create_invite I B now random name greeting ttl s).1.invite ≡ some p)
          × (code.token ≡ p.token)
          × (code.name ≡ p.my_name)
    unfolding create_invite
    create_invite-decode now random name greeting ttl s raw me r n h =
        elim (Result-cases (validate_name name)) [
          | inr bad ↦ ground arith
          | inl valid ↦
              let code = minted I B id name random in
              let made : raw ≡ encode (minted I B s.id name random) = ground arith in
              let printed = made ∙ ap (λ i. encode (minted I B i name random)) me in
              let read =
                decode-encode I B code [] [] (minted-IsMintable name random valid.1 r n) tt tt in
              (
                code,
                record {
                  token = new_token I B random;
                  my_name = name;
                  greeting = greeting;
                  expires_at = now + ttl;
                },
                ap (λ t. decode I B t) (printed ∙ sym (append-nil (encode code))) ∙ read,
                minted-id name random,
                ground (arith, valid.1),
                refl,
                refl,
              )
        ]
