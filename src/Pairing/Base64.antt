-- ===== src/Pairing/Base64.antt =====
-- `BASE64URL_NOPAD` of the crate `data_encoding`, as far as the invite code uses it.
use agent2agent.Base.{ℕ, ◌<◌, ◌≡◌, true, Option, some, List, Text, nat_eq, text_eq, All}
use agent2agent.Config.Name.{is_name_char}

pub record Base64 : Type 0 where
  pub encode : List ℕ → Text
  pub decode : List ℕ → Option (List ℕ)

-- What the source relies on. An encoding consists of letters, digits, dashes and underscores, each
-- of one byte, and is decoded to the bytes that were encoded.
pub record IsLawful (B : Base64) : Type 0 where
  pub decode-encode :
      (bytes : List ℕ) → All (λ b. b < 256) bytes → B.decode (B.encode bytes) ≡ some bytes
  pub alphabet : (bytes : List ℕ) → All (λ c. is_name_char c ≡ true) (B.encode bytes)
