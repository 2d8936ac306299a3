-- ===== src/Daemon/Send.antt =====
-- `send_kind` and `handle_stream` of src/daemon.rs: a message that goes out, and one that comes in.
pub mod Heard
pub mod Sent
pub mod Carried
use agent2agent.Base.{
  ℕ, zero, suc, ◌+◌, ◌-◌, ◌*◌, ◌/◌, ◌%◌, ◌^◌, ◌≤◌, ◌<◌, ◌≡◌, refl, sym, ap, ◌∙◌, ◌≢◌, ◌↔◌, ◌⊎◌, inl,
  inr, Bool, true, false, not, ◌&&◌, ◌||◌, Option, none, some, List, [], ◌∷◌, ◌++◌, map, append-nil,
  append_assoc, arith, ltb, leb, if◌then◌else◌, Text, text, ◌==◌, nat_eq, text_eq, Bool-cases,
  Option-cases, ==_iff, length, get_elem?, take, drop, all, All, All-append, All-map, all→All,
  All→all, length-append, length-map, take-inside, drop-inside, take-beyond, drop-beyond, take_all,
  take-append-drop, length-take-le, append-cancel_left, take-append, drop-append, Result, ok, err,
  ◌>>=◌, ◌>>◌, bail_if, context, ok_or, is_ok, or_zero, within, Context, Error, >>=-eq-ok,
  ok_or-eq-ok, context-eq-ok, bail_if-eq-ok, Result-cases, creating, reading, parsing, writing,
  setting_mode, removing, serializing_state, locating_executable, reading_current_dir,
  reading_stdin, starting_daemon, rounds_over, panics, no_session, no_name_set, empty_message,
  unexpected_reply, daemon_did_not_start, io_failed, bad_toml, bad_json, unknown_peer,
  delivering_to, no_acknowledgement, delivery_timed_out, peer_disconnected, unsupported_version,
}
use agent2agent.Base.Map
use agent2agent.Base.Map.{Map}
use agent2agent.Base.Chars.Decimal.{decimal}
use agent2agent.Config.Iroh.{Iroh}
use agent2agent.Config.Mode.{manual}
use agent2agent.Config.Peers.{Peers, EndpointAddr, endpoint_addr, resolve, name_for}
use agent2agent.Daemon.{State}
use agent2agent.Daemon.Deliver.{Attempt, Codecs, Pending, attempts}
use agent2agent.Inbox.{Message, push}
use agent2agent.Wire.{
  Kind, msg, hello, bye, WireMsg, of_kind, protocol_version, pair_alpn, Ack, ack_ok, ack_error,
}
use agent2agent.Wire.Json.{write_json, read_json}
use agent2agent.Wire.Frame.Stream.{Reader}

abbrev pub is_msg : Kind → Bool
is_msg msg = true
is_msg hello = false
is_msg bye = false

-- What a message draws from the system: the bytes of its id, and the clock.
pub record Stamp : Type 0 where
  pub random : List ℕ
  pub clock : Option ℕ

module _ (I : Iroh) (C : Codecs) where
  open I use {EndpointId}

  -- `end_of_conversation`
  unfoldable pub end_of_conversation : State I → State I
  end_of_conversation self = record self { mode = manual }

  unfoldable pub has_departed : Text → State I → Bool
  has_departed peer self = Map.contains_key peer self.departed

  -- Who is meant, and where they are.
  unfoldable pub addressee : Option Text → Peers → Result (Text × EndpointAddr I)
  addressee peer peers = do
    (name, found) ← resolve peer peers
    addr ← endpoint_addr I found
    ok (name, addr)

  -- What our own message says of who is still there.
  unfoldable pub announced : Kind → Text → State I → State I
  announced msg name self = self
  announced hello name self = record self { departed = Map.remove name self.departed }
  announced bye name self =
      end_of_conversation (record self { departed = Map.insert name tt self.departed })

  -- The result of a delivery within the time that was given.
  unfoldable pub concluded : Text → Text → Pending (Unit {0}) → Result (Text × Text)
  concluded name id Pending.stalled = err (delivery_timed_out name)
  concluded name id (Pending.finished (ok _)) = ok (name, id)
  concluded name id (Pending.finished (err e)) = err (within (delivering_to name) e)

  unfoldable pub dispatched :
      Attempt I × Attempt I
      → Stamp
      → Kind
      → Text
      → Text × EndpointAddr I
      → State I
      → Result (Text × Text) × State I
  dispatched net stamp kind body (name, addr) self =
      if is_msg kind && has_departed name self
      then (err (peer_disconnected name), self)
      else (let announced_ = announced kind name self in
          let message = of_kind stamp.random stamp.clock kind body in
          let (outcome, connections) =
            attempts I C (net.0 ∷ net.1 ∷ []) no_acknowledgement addr message
              announced_.connections in
          (concluded name message.id outcome, record announced_ { connections = connections }))

  unfoldable pub send_kind :
      Attempt I × Attempt I
      → Stamp
      → Option Text
      → Kind
      → Text
      → State I
      → Result (Text × Text) × State I
  send_kind net stamp peer kind body self = elim (addressee peer self.peers) [
    | err e ↦ (err e, self)
    | ok to ↦ dispatched net stamp kind body to self
  ]

  -- How a stream was served: the result, what was answered on it, and the state after.
  pub record Served : Type 0 where
    pub outcome : Result (Unit {0})
    pub answer : Option Ack
    pub state : State I

  -- What a peer's message says of who is still there.
  unfoldable pub heard : Kind → Text → State I → State I
  heard bye name self =
      end_of_conversation (record self { departed = Map.insert name tt self.departed })
  heard msg name self = record self { departed = Map.remove name self.departed }
  heard hello name self = record self { departed = Map.remove name self.departed }

  abbrev pub queued : Text → WireMsg → Message
  queued name m = record { peer = name; id = m.id; ts = m.ts; kind = m.kind; body = m.body }

  -- `write_json(&mut send, &ack)`, where `written` is how the stream takes it
  unfoldable pub acknowledge : Result (Unit {0}) → Ack → Result (Unit {0})
  acknowledge written ack = do write_json C.ack ack; written

  unfoldable pub refusal : WireMsg → Ack
  refusal m = ack_error (
      text "unsupported protocol version "
      ++ decimal m.v
      ++ text " (this daemon speaks "
      ++ decimal protocol_version
      ++ text ")")

  unfoldable pub received : Result (Unit {0}) → Text → WireMsg → State I → Served
  received written name m self =
      if not (m.v == protocol_version)
      then record {
        outcome = acknowledge written (refusal m) >> err (unsupported_version m.v);
        answer = some (refusal m);
        state = self;
      }
      else (let present = heard m.kind name self in
          record {
            outcome = acknowledge written ack_ok;
            answer = some ack_ok;
            state = record present { inbox = (push (queued name m) present.inbox).1 };
          })

  -- On what was read; `none` is a stream that was opened and closed without a message.
  unfoldable pub on_stream :
      Result (Unit {0}) → Text → Result (Option WireMsg × Reader) → State I → Served
  on_stream written name (err e) self = record { outcome = err e; answer = none; state = self }
  on_stream written name (ok (none, _)) self = record {
    outcome = ok tt;
    answer = none;
    state = self;
  }
  on_stream written name (ok (some m, _)) self = received written name m self

  unfoldable pub handle_stream : Result (Unit {0}) → Text → Reader → State I → Served
  handle_stream written name recv self = on_stream written name (read_json C.wire_msg recv) self

  -- What `handle_incoming` makes of a connection: pairing, a conversation with a peer, or nothing.
  pub data Admission : Type 0 where
    pairing : Admission
    conversation : Text → Admission
    unauthorized : Admission

  unfoldable pub handle_incoming : Text → EndpointId → State I → Admission
  handle_incoming used remote self =
      if used == pair_alpn then pairing else elim (name_for I remote self.peers) [
        | none ↦ unauthorized
        | some name ↦ conversation name
      ]
