-- ===== src/Examples/Codes.antt =====
-- Names, hexadecimal digits, versions and invite codes.
use agent2agent.Base.{
  ◌≡◌, refl, ◌↔◌, true, ◌||◌, some, [], ◌∷◌, ◌++◌, arith, text, ◌==◌, nat_eq, text_eq, all→All, ok,
}
use agent2agent.Base.Chars.{
  is_whitespace, is_ascii_digit, is_ascii_alphanumeric, byte_len, trim, as_bytes,
}
use agent2agent.Config.Name.{is_name_char, validate_name, validate_name_iff}
use agent2agent.Pairing.Code.{InviteCode, encode, decode, inviter_id}
use agent2agent.Pairing.Code.RoundTrip.{decode-encode, IsMintable}
use agent2agent.Pairing.Code.Accepted.{decode-Accepted, IsAccepted}
use agent2agent.Pairing.Version.{is_newer}
use agent2agent.Pairing.Version.Dotted.{dotted}
use agent2agent.Pairing.Version.Order.{at, Above, is_newer_iff}
use agent2agent.Examples.World.{two_keys, plain, many}

is_newer_iff_example :
    (is_newer (dotted (0 ∷ 10 ∷ 0 ∷ [])) (dotted (0 ∷ 9 ∷ 9 ∷ [])) ≡ true)
    ↔ Above (at (0 ∷ 10 ∷ 0 ∷ [])) (at (0 ∷ 9 ∷ 9 ∷ []))
is_newer_iff_example =
    is_newer_iff (0 ∷ 10 ∷ 0 ∷ []) (0 ∷ 9 ∷ 9 ∷ [])
      (λ e. cc, (omega arith, (omega arith, (omega arith, tt))))
      (λ e. cc, (omega arith, (omega arith, (omega arith, tt))))

abbrev a_code : InviteCode
a_code = record {
  name = text "alice";
  id = many 32;
  token = text "token-token1";
  version = some (text "0.2.11");
}

alice_named : validate_name (text "alice") ≡ ok tt
unfolding validate_name nat_eq text_eq is_name_char byte_len is_ascii_alphanumeric
alice_named = refl

a_code-IsMintable : IsMintable two_keys plain a_code
unfolding inviter_id nat_eq is_name_char is_ascii_digit is_ascii_alphanumeric as_bytes
a_code-IsMintable = record {
  name = (validate_name_iff (text "alice")).0 alice_named;
  id_chars = all→All is_name_char (many 32) refl;
  key = true;
  id_key = refl;
  token_chars = all→All is_name_char (text "token-token1") refl;
  secret = text "token-token1";
  token_secret = refl;
  secret_length = refl;
  version = (λ h. cc, all→All (λ c. is_ascii_digit c || c == b'.') (text "0.2.11") refl);
}

space : is_whitespace 32 ≡ true
unfolding is_whitespace nat_eq
space = refl

newline : is_whitespace 10 ≡ true
unfolding is_whitespace nat_eq
newline = refl

decode-encode_example : decode two_keys plain (text " " ++ (encode a_code ++ text "\n")) ≡ ok a_code
decode-encode_example =
    decode-encode two_keys plain a_code (text " ") (text "\n") a_code-IsMintable (space, tt)
      (newline, tt)

decode-Accepted_example :
    (encode a_code ≡ trim (text " " ++ (encode a_code ++ text "\n")))
    × IsAccepted two_keys plain a_code
decode-Accepted_example =
    decode-Accepted two_keys plain (text " " ++ (encode a_code ++ text "\n")) a_code (
      decode-encode two_keys plain a_code (text " ") (text "\n") a_code-IsMintable (space, tt)
        (newline, tt))
