-- ===== src/Daemon/Join.antt =====
-- The joiner's side of a pairing in src/daemon.rs.
pub mod Restores
pub mod Retry
use agent2agent.Base.{
  ℕ, zero, suc, ◌+◌, ◌-◌, ◌*◌, ◌/◌, ◌%◌, ◌^◌, ◌≤◌, ◌<◌, ◌≡◌, refl, sym, ap, ◌∙◌, ◌≢◌, ◌↔◌, ◌⊎◌, inl,
  inr, Bool, true, false, not, ◌&&◌, ◌||◌, Option, none, some, List, [], ◌∷◌, ◌++◌, map, append-nil,
  append_assoc, arith, ltb, leb, if◌then◌else◌, Text, text, ◌==◌, nat_eq, text_eq, Bool-cases,
  Option-cases, ==_iff, length, get_elem?, take, drop, all, All, All-append, All-map, all→All,
  All→all, length-append, length-map, take-inside, drop-inside, take-beyond, drop-beyond, take_all,
  take-append-drop, length-take-le, append-cancel_left, take-append, drop-append, Result, ok, err,
  ◌>>=◌, ◌>>◌, bail_if, context, ok_or, is_ok, or_zero, within, Context, Error, >>=-eq-ok,
  ok_or-eq-ok, context-eq-ok, bail_if-eq-ok, Result-cases, creating, reading, parsing, writing,
  setting_mode, removing, serializing_state, locating_executable, reading_current_dir,
  reading_stdin, starting_daemon, rounds_over, panics, no_session, no_name_set, empty_message,
  unexpected_reply, daemon_did_not_start, io_failed, bad_toml, bad_json, unknown_peer,
  invite_refused, cannot_reach_inviter, inviter_silent, own_invite_code, peer_is_newer,
}
use agent2agent.Base.Map
use agent2agent.Config.Iroh.{Iroh}
use agent2agent.Config.Name.{validate_name}
use agent2agent.Config.Peers.{Peers, EndpointAddr, endpoint_addr, add_paired, name_for, remove}
use agent2agent.Daemon.{State}
use agent2agent.Daemon.Deliver.{Attempt, Codecs, Pending, stalled, finished, after}
use agent2agent.Daemon.Invite.{or_empty}
use agent2agent.Daemon.Send.{Stamp, send_kind}
use agent2agent.Pairing.Base64.{Base64}
use agent2agent.Pairing.Code.{InviteCode, decode, inviter_id}
use agent2agent.Pairing.Distinct.{distinct_from}
use agent2agent.Pairing.Join.{JoinRequest, JoinResponse, paired, not_paired, version}
use agent2agent.Pairing.Version.{is_newer}
use agent2agent.Wire.{hello, protocol_version}
use agent2agent.Wire.Frame.Stream.{Reader}
use agent2agent.Wire.Json.{write_json, read_json}

-- One try to reach the inviter, and what the clock says after it.
pub record Dial : Type 0 where
  pub outcome : Result (Unit {0})
  pub clock : ℕ

-- What the network does while an invite is redeemed.
pub record Pairing : Type 0 where
  pub deadline : ℕ
  pub dials : List Dial
  pub open_bi : Result (Unit {0})
  pub written : Result (Unit {0})
  pub finish : Result (Unit {0})
  pub reply : Pending Reader

-- The loop that retries until the deadline; `stalled` where the tries are over before it is.
unfoldable pub dial : ℕ → List Dial → Pending (Unit {0})
dial deadline [] = stalled
dial deadline (d ∷ dials) =
    let later = dial deadline dials in
    elim d.outcome [
      | ok u ↦ finished (ok u)
      | err e ↦
          if ltb d.clock deadline then later else finished (err (within cannot_reach_inviter e))
    ]

unfoldable pub read_verdict : Option JoinResponse → Result Text
read_verdict none = err inviter_silent
read_verdict (some (paired name)) = ok name
read_verdict (some (not_paired message)) = err (invite_refused message)

unfoldable pub perform_join : Codecs → Pairing → Text → Text → Pending Text
perform_join C net token my_name =
    let request : JoinRequest = record { v = protocol_version; token = token; name = my_name } in
    after (dial net.deadline net.dials) (λ _.
      after
        (finished (net.open_bi >> write_json C.join_request request >> net.written >> net.finish))
        (λ _.
          after net.reply
            (λ r. finished (read_json C.join_response r >>= λ found. read_verdict found.0))))

-- `if let Some(theirs) = &code.version`
unfoldable pub check_version : Option Text → Result (Unit {0})
check_version none = ok tt
check_version (some theirs) = bail_if (is_newer theirs version) (peer_is_newer theirs)

module _ (I : Iroh) (B : Base64) where
  open I use {EndpointId, same}

  unfoldable pub check_other : EndpointId → EndpointId → Result (Unit {0})
  check_other inviter me = elim (same inviter me) [ yes _ ↦ err own_invite_code | no _ ↦ ok tt ]

  -- Everything that is checked before the list of peers is touched: the code, the name to go by,
  -- and whose the invite is.
  unfoldable pub prepare : EndpointId → Text → Text → Result (InviteCode × Text × EndpointId)
  prepare me raw_code my_name = do
    validate_name my_name
    code ← decode I B raw_code
    check_version code.version
    inviter ← inviter_id I B code
    check_other inviter me
    ok (code, distinct_from my_name code.name, inviter)

module _ (I : Iroh) where
  open I use {EndpointId}

  -- The lookup of the peer that was just filed, whose absence would be a panic.
  unfoldable pub address_of : Text → Peers → Result (EndpointAddr I)
  address_of name peers = do
    peer ← ok_or (unknown_peer name) (Map.get name peers.peers)
    endpoint_addr I peer

  -- The inviter is let in before it is called. `saved` is how writing the file ends.
  unfoldable pub authorize :
      Result (Unit {0}) → Text → EndpointId → State I → Result (Text × EndpointAddr I) × State I
  authorize saved preferred inviter self = elim (add_paired I preferred inviter self.peers) [
    | err e ↦ (err e, self)
    | ok added ↦ elim saved [
      | err e ↦ (err e, record self { peers = added.1 })
      | ok _ ↦ (
        (do addr ← address_of added.0 added.1; ok (added.0, addr)),
        record self { peers = added.1; on_disk = added.1 },
      )
    ]
  ]

  -- A failed attempt leaves no peer behind that it let in. Whether the file is then written again
  -- is `saved`, and a failure is ignored.
  unfoldable pub revoke : Bool → Result (Unit {0}) → Text → State I → State I
  revoke true saved name self = self
  revoke false saved name self =
      let rest = (remove name self.peers).1 in
      elim saved [
        | err _ ↦ record self { peers = rest }
        | ok _ ↦ record self { peers = rest; on_disk = rest }
      ]

  abbrev pub is_known : Option Text → Bool
  is_known none = false
  is_known (some _) = true

  -- The end of `join`, on what `perform_join` gave.
  unfoldable pub joined :
      Codecs
      → Attempt I × Attempt I
      → Stamp
      → Option Text
      → Bool
      → Result (Unit {0})
      → Text
      → Text
      → Pending Text
      → State I
      → Pending (Text × Text) × State I
  joined C net stamp introduction known saved name my_name stalled self = (stalled, self)
  joined C net stamp introduction known saved name my_name (finished (err e)) self =
      (finished (err e), revoke known saved name self)
  joined C net stamp introduction known saved name my_name (finished (ok _)) self = (
    finished (ok (name, my_name)),
    (send_kind I C net stamp (some name) hello (or_empty introduction) self).1,
  )

-- What the system does while `join` runs.
pub record World (I : Iroh) : Type 0 where
  pub saved : Result (Unit {0})
  pub pairing : Pairing
  pub net : Attempt I × Attempt I
  pub stamp : Stamp
  pub saved_again : Result (Unit {0})

module _ (I : Iroh) (B : Base64) (C : Codecs) where
  open I use {EndpointId}

  -- `join` once the code has been accepted.
  unfoldable pub join_inviter :
      World I
      → Option Text
      → InviteCode × Text × EndpointId
      → State I
      → Pending (Text × Text) × State I
  join_inviter w introduction (code, my_name, inviter) self =
      let known = is_known I (name_for I inviter self.peers) in
      let (authorized, during) = authorize I w.saved code.name inviter self in
      elim authorized [
        | err e ↦ (finished (err e), during)
        | ok r ↦
            joined I C w.net w.stamp introduction known w.saved_again r.0 my_name
              (perform_join C w.pairing code.token my_name) during
      ]

  -- The name that the inviter is filed under, and the one that we go by.
  unfoldable pub join :
      World I → Text → Text → Option Text → State I → Pending (Text × Text) × State I
  join w raw_code my_name introduction self = elim (prepare I B self.id raw_code my_name) [
    | err e ↦ (finished (err e), self)
    | ok accepted ↦ join_inviter w introduction accepted self
  ]
