-- ===== src/Config/Peers.antt =====
-- `Peer` and `Peers` of src/config.rs: the list of the agents that this one talks to.
use agent2agent.Base.{
  ℕ, zero, suc, ◌+◌, ◌-◌, ◌*◌, ◌/◌, ◌%◌, ◌^◌, ◌≤◌, ◌<◌, ◌≡◌, refl, sym, ap, ◌∙◌, ◌≢◌, ◌↔◌, ◌⊎◌, inl,
  inr, Bool, true, false, not, ◌&&◌, ◌||◌, Option, none, some, List, [], ◌∷◌, ◌++◌, map, append-nil,
  append_assoc, arith, ltb, leb, if◌then◌else◌, Text, text, ◌==◌, nat_eq, text_eq, Bool-cases,
  Option-cases, ==_iff, length, get_elem?, take, drop, all, All, All-append, All-map, all→All,
  All→all, length-append, take-append, drop-append, Result, ok, err, ◌>>=◌, ◌>>◌, bail_if, context,
  ok_or, is_ok, within, Context, Error, >>=-eq-ok, ok_or-eq-ok, empty_endpoint_id,
  not_an_endpoint_id, id_already_registered, unknown_peer, no_peers, several_peers, bad_address,
}
pub mod Fresh
pub mod Invariant
pub mod Paired
pub mod Kept
pub mod Resolve
pub mod Authorization
use agent2agent.Base.Map
use agent2agent.Base.Map.{Map}
use agent2agent.Base.Chars.{trim}
use agent2agent.Base.Chars.Decimal.{decimal}
use agent2agent.Config.Name.{validate_name}
use agent2agent.Config.Iroh.{Iroh}

-- The id is the text of an endpoint id, as the file holds it.
pub record Peer : Type 0 where
  pub id : Text
  pub addrs : List Text

pub record Peers : Type 0 where
  pub default : Option Text
  pub peers : Map Peer

-- `Peers::default()`
abbrev pub no_peers_yet : Peers
no_peers_yet = record { default = none; peers = [] }

-- `if self.default.is_none() { self.default = Some(name) }`
abbrev pub default_or : Option Text → Text → Option Text
default_or none name = some name
default_or (some d) name = some d

-- The loop of `add_paired` that looks for a name which is not taken. The fuel bounds its rounds.
unfoldable pub free_name : ℕ → Map Peer → Text → ℕ → Text → Text
free_name zero peers preferred suffix name = name
free_name (suc fuel) peers preferred suffix name =
    let next = free_name fuel peers preferred (suffix + 1) (preferred ++ b'-' ∷ decimal suffix) in
    if Map.contains_key name peers then next else name

-- The addresses that are kept when a peer pairs again.
abbrev pub addrs_of : Option Peer → List Text
addrs_of none = []
addrs_of (some p) = p.addrs

-- The default after `name` is gone, from the peers that are left.
unfoldable pub repoint : Option Text → Text → Map Peer → Option Text
repoint none name rest = none
repoint (some d) name rest = if d == name then Map.first_key rest else some d

-- Returns whether the peer existed.
unfoldable pub remove : Text → Peers → Bool × Peers
unfolding repoint
remove name self =
    let rest = Map.remove name self.peers in
    (
      Map.contains_key name self.peers,
      record { default = repoint self.default name rest; peers = rest },
    )

unfoldable pub set_default : Text → Peers → Result Peers
set_default name self = do
  bail_if (not (Map.contains_key name self.peers)) (unknown_peer name)
  ok (record self { default = some name })

-- The peer that is meant where none is named.
unfoldable pub implied : Peers → Result Text
implied self = elim self.default [
  | some d ↦ ok d
  | none ↦ elim self.peers [
    | [] ↦ err no_peers
    | ◌∷◌ e rest ↦ elim rest [ [] ↦ ok e.0 | ◌∷◌ _ _ ↦ err several_peers ]
  ]
]

unfoldable pub resolve : Option Text → Peers → Result (Text × Peer)
resolve name self = do
  chosen ← elim name [ some n ↦ ok n | none ↦ implied self ]
  peer ← ok_or (unknown_peer chosen) (Map.get chosen self.peers)
  ok (chosen, peer)

module _ (I : Iroh) where
  open I use {EndpointId, to_string, from_str, SocketAddr, parse_addr}

  pub record EndpointAddr : Type 0 where
    pub id : EndpointId
    pub addrs : List SocketAddr

  unfoldable pub parse_endpoint_id : Text → Result EndpointId
  parse_endpoint_id raw =
      let s = trim raw in
      do bail_if (s == []) empty_endpoint_id; ok_or (not_an_endpoint_id s) (from_str s)

  unfoldable pub endpoint_id : Peer → Result EndpointId
  endpoint_id peer = parse_endpoint_id peer.id

  parse_addrs : List Text → Result (List SocketAddr)
  parse_addrs [] = ok []
  parse_addrs (raw ∷ rest) = do
    addr ← ok_or (bad_address raw) (parse_addr raw)
    addrs ← parse_addrs rest
    ok (addr ∷ addrs)

  unfoldable pub endpoint_addr : Peer → Result EndpointAddr
  unfolding parse_addrs endpoint_id
  endpoint_addr peer = do
    id ← endpoint_id peer
    addrs ← parse_addrs peer.addrs
    ok (record { id = id; addrs = addrs })

  -- The authorization check: the name that an id is known by.
  unfoldable pub name_for : EndpointId → Peers → Option Text
  name_for id self = elim (Map.find (λ _ peer. peer.id == to_string id) self.peers) [
    | none ↦ none
    | some e ↦ some e.0
  ]

  -- A refusal leaves the list as it was.
  unfoldable pub add : Text → Text → Peers → Result Peers
  add name id self = do
    validate_name name
    parsed ← parse_endpoint_id id
    elim (Map.find (λ other peer. not (other == name) && peer.id == to_string parsed) self.peers) [
      | some e ↦ err (id_already_registered e.0)
      | none ↦ ok (record {
        default = default_or self.default name;
        peers = Map.insert name (record { id = to_string parsed; addrs = [] }) self.peers;
      })
    ]

  -- Returns the name that was used, and the new list.
  unfoldable pub add_paired : Text → EndpointId → Peers → Result (Text × Peers)
  add_paired preferred id self = do
    validate_name preferred
    elim (name_for id self) [
      | some existing ↦ ok (
        existing,
        record self {
          peers =
              Map.insert existing
                (record { id = to_string id; addrs = addrs_of (Map.get existing self.peers) })
                self.peers;
        },
      )
      | none ↦
          let name = free_name (suc (length self.peers)) self.peers preferred 2 preferred in
          ok (
            name,
            record {
              default = default_or self.default name;
              peers = Map.insert name (record { id = to_string id; addrs = [] }) self.peers;
            },
          )
    ]
