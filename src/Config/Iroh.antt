-- ===== src/Config/Iroh.antt =====
-- The crate `iroh`, as far as the peer list and the invite code use it: an endpoint id is a public
-- key with a text and a byte form. Nothing else is known of it.
use agent2agent.Base.{ℕ, ◌≡◌, Option, some, List, Text, nat_eq, text_eq, length}

pub record Iroh : Type 1 where
  pub EndpointId : Type 0
  pub same : Discrete EndpointId
  -- `Display` and `FromStr`
  pub to_string : EndpointId → Text
  pub from_str : Text → Option EndpointId
  -- `as_bytes` and `from_bytes`
  pub as_bytes : EndpointId → List ℕ
  pub from_bytes : List ℕ → Option EndpointId
  -- `SocketAddr`, and its `parse`
  pub SocketAddr : Type 0
  pub parse_addr : Text → Option SocketAddr

-- What the source relies on: the printed form and the bytes of an id read back as that id.
pub record IsLawful (I : Iroh) : Type 0 where
  pub from_str-to_string : (id : I.EndpointId) → I.from_str (I.to_string id) ≡ some id
  pub from_bytes-as_bytes : (id : I.EndpointId) → I.from_bytes (I.as_bytes id) ≡ some id
  pub length-as_bytes : (id : I.EndpointId) → length (I.as_bytes id) ≡ 32
