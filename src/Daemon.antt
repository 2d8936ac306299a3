-- ===== src/Daemon.antt =====
-- src/daemon.rs: the state that a daemon keeps between the requests and the connections.
pub mod Deliver
pub mod Send
pub mod Socket
pub mod Invite
pub mod Join
pub mod Handle
pub mod Process
pub mod Served
use agent2agent.Base.{
  ℕ, zero, suc, ◌+◌, ◌-◌, ◌*◌, ◌/◌, ◌%◌, ◌^◌, ◌≤◌, ◌<◌, ◌≡◌, refl, sym, ap, ◌∙◌, ◌≢◌, ◌↔◌, ◌⊎◌, inl,
  inr, Bool, true, false, not, ◌&&◌, ◌||◌, Option, none, some, List, [], ◌∷◌, ◌++◌, map, append-nil,
  append_assoc, arith, ltb, leb, if◌then◌else◌, Text, text, ◌==◌, nat_eq, text_eq, Bool-cases,
  Option-cases, ==_iff, length, get_elem?, take, drop, all, All, All-append, All-map, all→All,
  All→all, length-append, length-map, take-inside, drop-inside, take-beyond, drop-beyond, take_all,
  take-append-drop, length-take-le, append-cancel_left, take-append, drop-append, Result, ok, err,
  ◌>>=◌, ◌>>◌, bail_if, context, ok_or, is_ok, or_zero, within, Context, Error, >>=-eq-ok,
  ok_or-eq-ok, context-eq-ok, bail_if-eq-ok, Result-cases, creating, reading, parsing, writing,
  setting_mode, removing, serializing_state, locating_executable, reading_current_dir,
  reading_stdin, starting_daemon, rounds_over, panics, no_session, no_name_set, empty_message,
  unexpected_reply, daemon_did_not_start, io_failed, bad_toml, bad_json, unknown_peer,
}
use mathlib.Core.Option
use agent2agent.Base.Map
use agent2agent.Base.Map.{Map}
use agent2agent.Inbox.{Inbox, new_inbox}
use agent2agent.Config.Mode.{Mode, default_mode}
use agent2agent.Config.Iroh.{Iroh}
use agent2agent.Config.Peers.{Peers}
use agent2agent.Wire.Json.{Codec}
use agent2agent.Wire.{WireMsg, Ack}

-- An `Instant` is a number of seconds.
pub record PendingInvite : Type 0 where
  pub token : Text
  pub my_name : Text
  pub greeting : Option Text
  pub expires_at : ℕ

-- `HashSet<String>`, in the order in which a status lists it
abbrev pub Names : Type 0
Names = Map (Unit {0})

module _ (I : Iroh) where
  open I use {EndpointId, same}

  -- `HashMap<EndpointId, Connection>`: a connection is a number.
  abbrev pub Connections : Type 0
  Connections = List (EndpointId × ℕ)

  pub record State : Type 0 where
    pub id : EndpointId
    pub inbox : Inbox
    pub peers : Peers
    pub invite : Option PendingInvite
    pub stopping : Bool
    pub mode : Mode
    pub departed : Names
    pub connections : Connections
    -- what peers.toml holds
    pub on_disk : Peers

  -- `with_options`, whose inbox has a capacity that is not zero
  unfoldable pub with_options : EndpointId → Peers → ℕ → Option State
  with_options id peers inbox_capacity =
      Option.map
        (λ inbox. record {
          id = id;
          inbox = inbox;
          peers = peers;
          invite = none;
          stopping = false;
          mode = default_mode;
          departed = [];
          connections = [];
          on_disk = peers;
        })
        (new_inbox inbox_capacity)
