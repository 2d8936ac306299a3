-- ===== src/Pairing/Join.antt =====
-- `JoinRequest` and `JoinResponse` of src/pairing.rs: the one exchange of a pairing connection.
use agent2agent.Base.{ℕ, Text, text, nat_eq, text_eq, Error}

pub record JoinRequest : Type 0 where
  pub v : ℕ
  pub token : Text
  pub name : Text

-- The message of a refusal is the error that it is the text of.
pub data JoinResponse : Type 0 where
  paired : (name : Text) → JoinResponse
  not_paired : (message : Error) → JoinResponse

-- `VERSION`, from the manifest of the package
abbrev pub version : Text
version = text "0.2.11"
