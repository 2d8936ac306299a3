-- ===== src/Wire.antt =====
-- src/wire.rs: what two daemons say to one another.
pub mod Frame
pub mod Json
use agent2agent.Base.Int.{ℤ}
use agent2agent.Util.{now_ts, new_message_id}
use agent2agent.Base.{
  ℕ, zero, suc, ◌+◌, ◌-◌, ◌*◌, ◌/◌, ◌%◌, ◌^◌, ◌≤◌, ◌<◌, ◌≡◌, refl, sym, ap, ◌∙◌, ◌≢◌, ◌↔◌, ◌⊎◌, inl,
  inr, Bool, true, false, not, ◌&&◌, ◌||◌, Option, none, some, List, [], ◌∷◌, ◌++◌, map, append-nil,
  append_assoc, arith, ltb, leb, if◌then◌else◌, Text, text, ◌==◌, nat_eq, text_eq, Bool-cases,
  Option-cases, ==_iff, length, get_elem?, take, drop, all, All, All-append, All-map, all→All,
  All→all, length-append, length-map, append-cancel_left, take-append, drop-append, Result, ok, err,
  ◌>>=◌, ◌>>◌, bail_if, context, ok_or, is_ok, within, Context, Error, >>=-eq-ok, ok_or-eq-ok,
  context-eq-ok, bail_if-eq-ok,
}

abbrev pub protocol_version : ℕ
protocol_version = 1

-- `ALPN`, and `PAIR_ALPN` of src/pairing.rs
abbrev pub alpn : Text
alpn = text "agent2agent/1"

abbrev pub pair_alpn : Text
pair_alpn = text "agent2agent/pair/1"

pub data Kind : Type 0 where
  msg hello bye : Kind

pub Kind-discrete : Discrete Kind
Kind-discrete = hlevel

unfoldable pub as_str : Kind → Text
as_str msg = text "msg"
as_str hello = text "hello"
as_str bye = text "bye"

pub record WireMsg : Type 0 where
  pub v : ℕ
  pub id : Text
  pub ts : ℤ
  pub kind : Kind
  pub body : Text

-- `random` is the sixteen bytes drawn for the id, and `clock` what the clock says.
unfoldable pub of_kind : List ℕ → Option ℕ → Kind → Text → WireMsg
of_kind random clock kind body = record {
  v = protocol_version;
  id = new_message_id random;
  ts = now_ts clock;
  kind = kind;
  body = body;
}

pub record Ack : Type 0 where
  pub v : ℕ
  pub accepted : Bool
  pub error : Option Text

abbrev pub ack_ok : Ack
ack_ok = record { v = protocol_version; accepted = true; error = none }

abbrev pub ack_error : Text → Ack
ack_error message = record { v = protocol_version; accepted = false; error = some message }
