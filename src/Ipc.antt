-- ===== src/Ipc.antt =====
-- src/ipc.rs: what the command line asks of its daemon, and what the daemon answers.
pub mod Exchange
pub mod Line
use agent2agent.Base.{
  ℕ, zero, suc, ◌+◌, ◌-◌, ◌*◌, ◌/◌, ◌%◌, ◌^◌, ◌≤◌, ◌<◌, ◌≡◌, refl, sym, ap, ◌∙◌, ◌≢◌, ◌↔◌, ◌⊎◌, inl,
  inr, Bool, true, false, not, ◌&&◌, ◌||◌, Option, none, some, List, [], ◌∷◌, ◌++◌, map, append-nil,
  append_assoc, arith, ltb, leb, if◌then◌else◌, Text, text, ◌==◌, nat_eq, text_eq, Bool-cases,
  Option-cases, ==_iff, length, get_elem?, take, drop, all, All, All-append, All-map, all→All,
  All→all, length-append, length-map, take-inside, drop-inside, take-beyond, drop-beyond, take_all,
  take-append-drop, length-take-le, append-cancel_left, take-append, drop-append, Result, ok, err,
  ◌>>=◌, ◌>>◌, bail_if, context, ok_or, is_ok, or_zero, within, Context, Error, >>=-eq-ok,
  ok_or-eq-ok, context-eq-ok, bail_if-eq-ok, Result-cases, creating, reading, parsing, writing,
  setting_mode, removing, serializing_state, locating_executable, reading_current_dir,
  reading_stdin, starting_daemon, rounds_over, panics, no_session, no_name_set, empty_message,
  unexpected_reply, daemon_did_not_start, io_failed, bad_toml, bad_json, unknown_peer,
}
use agent2agent.Base.Map.{Map}
use agent2agent.Inbox.{Message}
use agent2agent.Wire.{Kind}

-- `Option::None` in `peer` is the default peer, in `set` a question, in `greeting` no words.
pub data Request : Type 0 where
  send : (peer : Option Text) → (body : Text) → Kind → (confirmed : Bool) → Request
  recv : (peer : Option Text) → (wait_ms : ℕ) → Request
  invite : (name : Text) → (greeting : Option Text) → (ttl_secs : ℕ) → Request
  join : (code : Text) → (name : Text) → (greeting : Option Text) → Request
  status : Request
  mode : (set : Option Text) → Request
  reload shutdown : Request

pub record StatusInfo : Type 0 where
  pub id : Text
  pub peers : Map Text
  pub default_peer : Option Text
  pub mode : Text
  pub invite_open : Bool
  pub departed : List Text
  pub queued : Map ℕ
  pub queued_total : ℕ

pub data ResponseData : Type 0 where
  sent : (peer : Text) → (id : Text) → ResponseData
  needs_approval : (peer : Text) → ResponseData
  peer_gone : (peer : Text) → ResponseData
  message : Message → ResponseData
  no_message : ResponseData
  invited : (code : Text) → ResponseData
  joined : (peer : Text) → (name : Text) → ResponseData
  mode_is : (mode : Text) → ResponseData
  status_is : StatusInfo → ResponseData
  done : ResponseData

-- An error is the value that its text is made of.
pub data Response : Type 0 where
  answered : ResponseData → Response
  refused : Error → Response

unfoldable pub into_data : Response → Result ResponseData
into_data (answered data_) = ok data_
into_data (refused message_) = err message_

-- The arms of the `match` on a result that answer with its error.
abbrev pub respond {ℓ} : {A : Type ℓ} → (A → ResponseData) → Result A → Response
respond f (ok a) = answered (f a)
respond f (err e) = refused e
