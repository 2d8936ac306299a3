-- ===== src/Daemon/Deliver.antt =====
-- `deliver` of src/daemon.rs and what it calls: one message, in at most two attempts.
pub mod Accepted
pub mod Reached
pub mod Reconnects
use agent2agent.Base.{
  ℕ, zero, suc, ◌+◌, ◌-◌, ◌*◌, ◌/◌, ◌%◌, ◌^◌, ◌≤◌, ◌<◌, ◌≡◌, refl, sym, ap, ◌∙◌, ◌≢◌, ◌↔◌, ◌⊎◌, inl,
  inr, Bool, true, false, not, ◌&&◌, ◌||◌, Option, none, some, List, [], ◌∷◌, ◌++◌, map, append-nil,
  append_assoc, arith, ltb, leb, if◌then◌else◌, Text, text, ◌==◌, nat_eq, text_eq, Bool-cases,
  Option-cases, ==_iff, length, get_elem?, take, drop, all, All, All-append, All-map, all→All,
  All→all, length-append, length-map, take-inside, drop-inside, take-beyond, drop-beyond, take_all,
  take-append-drop, length-take-le, append-cancel_left, take-append, drop-append, Result, ok, err,
  ◌>>=◌, ◌>>◌, bail_if, context, ok_or, is_ok, or_zero, within, Context, Error, >>=-eq-ok,
  ok_or-eq-ok, context-eq-ok, bail_if-eq-ok, Result-cases, creating, reading, parsing, writing,
  setting_mode, removing, serializing_state, locating_executable, reading_current_dir,
  reading_stdin, starting_daemon, rounds_over, panics, no_session, no_name_set, empty_message,
  unexpected_reply, daemon_did_not_start, io_failed, bad_toml, bad_json, unknown_peer,
  message_rejected, cannot_reach_peer, no_acknowledgement,
}
use agent2agent.Config.Iroh.{Iroh}
use agent2agent.Config.Peers.{EndpointAddr}
use agent2agent.Daemon.{Connections}
use agent2agent.Wire.{WireMsg, Ack}
use agent2agent.Pairing.Join.{JoinRequest, JoinResponse}
use agent2agent.Wire.Json.{Codec, write_json, read_json}
use agent2agent.Wire.Frame.Stream.{Reader}

-- What an `await` comes to within the time that is given: nothing yet, or a result.
pub data Pending {ℓ} (A : Type ℓ) : Type ℓ where
  stalled : Pending A
  finished : Result A → Pending A

abbrev pub after {ℓ κ} : {A : Type ℓ} {B : Type κ} → Pending A → (A → Pending B) → Pending B
after stalled k = stalled
after (finished (err e)) k = finished (err e)
after (finished (ok a)) k = k a

-- What the network does in one attempt: which connections have closed, which connection dialling an
-- address gives, whether a stream opens on a connection, and how the one stream goes, up to the bytes
-- that come back on it.
pub record Attempt (I : Iroh) : Type 0 where
  pub is_closed : ℕ → Bool
  pub connect : EndpointAddr I → Pending ℕ
  pub open_bi : ℕ → Pending (Unit {0})
  pub written : Pending (Unit {0})
  pub finish : Result (Unit {0})
  pub reply : Pending Reader

-- The crate `serde_json` on what the daemons exchange.
pub record Codecs : Type 0 where
  pub wire_msg : Codec WireMsg
  pub ack : Codec Ack
  pub join_request : Codec JoinRequest
  pub join_response : Codec JoinResponse

-- What an answer is worth.
unfoldable pub judge : Option Ack → Result (Unit {0})
judge none = err no_acknowledgement
judge (some ack) = if ack.accepted then ok tt else err (message_rejected ack.error)

unfoldable pub read_ack : Codec Ack → Reader → Result (Unit {0})
read_ack codec r = do (ack, _) ← read_json codec r; judge ack

module _ (I : Iroh) where
  open I use {EndpointId, same}

  -- On the connection.
  unfoldable pub deliver_once : Codecs → Attempt I → ℕ → WireMsg → Pending (Unit {0})
  deliver_once C net connection message = after (net.open_bi connection) (λ _.
      after (finished (write_json C.wire_msg message)) (λ _. after net.written (λ _.
        after (finished net.finish) (λ _. after net.reply (λ r. finished (read_ack C.ack r))))))

  unfoldable pub connection_to : EndpointId → Connections I → Option ℕ
  connection_to id [] = none
  connection_to id (e ∷ rest) = elim (same e.0 id) [
    | yes _ ↦ some e.1
    | no _ ↦ connection_to id rest
  ]

  unfoldable pub forget_connection : EndpointId → Connections I → Connections I
  forget_connection id [] = []
  forget_connection id (e ∷ rest) = elim (same e.0 id) [
    | yes _ ↦ forget_connection id rest
    | no _ ↦ e ∷ forget_connection id rest
  ]

  -- `connections.insert`
  unfoldable pub remember_connection : EndpointId → ℕ → Connections I → Connections I
  remember_connection id c connections = (id, c) ∷ forget_connection id connections

  unfoldable pub cached_connection :
      (ℕ → Bool) → EndpointId → Connections I → Option ℕ × Connections I
  cached_connection is_closed id connections = elim (connection_to id connections) [
    | none ↦ (none, connections)
    | some c ↦
        if is_closed c then (none, forget_connection id connections) else (some c, connections)
  ]

  -- A connection that is new is remembered.
  unfoldable pub connected : EndpointId → Pending ℕ → Connections I → Pending ℕ × Connections I
  connected id stalled connections = (stalled, connections)
  connected id (finished (err e)) connections =
      (finished (err (within cannot_reach_peer e)), connections)
  connected id (finished (ok c)) connections =
      (finished (ok c), remember_connection id c connections)

  unfoldable pub connection_for :
      Attempt I → EndpointAddr I → Connections I → Pending ℕ × Connections I
  connection_for net addr connections =
      let (cached, kept) = cached_connection net.is_closed addr.id connections in
      elim cached [
        | some c ↦ (finished (ok c), kept)
        | none ↦ connected addr.id (net.connect addr) kept
      ]

  -- How one round of the loop ends: with a result for the caller, or with an error to try again on.
  pub data Round : Type 0 where
    returned : Pending (Unit {0}) → Round
    failed : Error → Round

  unfoldable pub exchanged : EndpointId → Pending (Unit {0}) → Connections I → Round × Connections I
  exchanged id stalled connections = (returned stalled, connections)
  exchanged id (finished (ok u)) connections = (returned (finished (ok u)), connections)
  exchanged id (finished (err e)) connections = (failed e, forget_connection id connections)

  unfoldable pub round_on :
      Codecs
      → Attempt I
      → EndpointAddr I
      → WireMsg
      → Pending ℕ × Connections I
      → Round × Connections I
  round_on C net addr message (stalled, connections) = (returned stalled, connections)
  round_on C net addr message (finished (err e), connections) =
      (returned (finished (err e)), connections)
  round_on C net addr message (finished (ok c), connections) =
      exchanged addr.id (deliver_once C net c message) connections

  unfoldable pub round :
      Codecs → Attempt I → EndpointAddr I → WireMsg → Connections I → Round × Connections I
  round C net addr message connections =
      round_on C net addr message (connection_for net addr connections)

  -- The loop over the attempts that are left, `last_error` being that of the one before.
  unfoldable pub attempts :
      Codecs
      → List (Attempt I)
      → Error
      → EndpointAddr I
      → WireMsg
      → Connections I
      → Pending (Unit {0}) × Connections I
  attempts C [] last_error addr message connections = (finished (err last_error), connections)
  attempts C (net ∷ nets) last_error addr message connections =
      let (outcome, kept) = round C net addr message connections in
      elim outcome [
        | returned result ↦ (result, kept)
        | failed e ↦ attempts C nets e addr message kept
      ]
