-- ===== src/Daemon/Invite.antt =====
-- The inviter's side of a pairing in src/daemon.rs: an invite is opened, and redeemed once.
pub mod Redeemed
pub mod Once
pub mod Locks
pub mod Minted
use agent2agent.Base.{
  ℕ, zero, suc, ◌+◌, ◌-◌, ◌*◌, ◌/◌, ◌%◌, ◌^◌, ◌≤◌, ◌<◌, ◌≡◌, refl, sym, ap, ◌∙◌, ◌≢◌, ◌↔◌, ◌⊎◌, inl,
  inr, Bool, true, false, not, ◌&&◌, ◌||◌, Option, none, some, List, [], ◌∷◌, ◌++◌, map, append-nil,
  append_assoc, arith, ltb, leb, if◌then◌else◌, Text, text, ◌==◌, nat_eq, text_eq, Bool-cases,
  Option-cases, ==_iff, length, get_elem?, take, drop, all, All, All-append, All-map, all→All,
  All→all, length-append, length-map, take-inside, drop-inside, take-beyond, drop-beyond, take_all,
  take-append-drop, length-take-le, append-cancel_left, take-append, drop-append, Result, ok, err,
  ◌>>=◌, ◌>>◌, bail_if, context, ok_or, is_ok, or_zero, within, Context, Error, >>=-eq-ok,
  ok_or-eq-ok, context-eq-ok, bail_if-eq-ok, Result-cases, token_mismatch, invite_expired,
  joiner_sent_nothing, no_invite_open,
}
use agent2agent.Config.Iroh.{Iroh}
use agent2agent.Config.Name.{validate_name}
use agent2agent.Config.Peers.{add_paired}
use agent2agent.Daemon.{State, PendingInvite}
use agent2agent.Daemon.Deliver.{Attempt, Codecs}
use agent2agent.Daemon.Send.{Stamp, send_kind}
use agent2agent.Pairing.Base64.{Base64}
use agent2agent.Pairing.Code.{InviteCode, encode, encode_id, new_token}
use agent2agent.Pairing.Join.{JoinResponse, paired, not_paired, version}
use agent2agent.Pairing.Token.{tokens_match}
use agent2agent.Wire.{hello}
use agent2agent.Wire.Frame.Stream.{Reader}
use agent2agent.Wire.Json.{write_json, read_json}

-- `unwrap_or_default()` on a text
abbrev pub or_empty : Option Text → Text
or_empty none = []
or_empty (some t) = t

-- What is done while the lock on the invite is held: the result, and the slot after it.
unfoldable pub take_invite :
    ℕ → Text → Option PendingInvite → Result PendingInvite × Option PendingInvite
take_invite now token none = (err no_invite_open, none)
take_invite now token (some pending) =
    if leb pending.expires_at now
    then (err invite_expired, none)
    else if not (tokens_match pending.token token)
    then (err token_mismatch, some pending)
    else (ok pending, none)

module _ (I : Iroh) (B : Base64) where
  open I use {EndpointId}

  -- The code is for this machine, with the token that `random` makes.
  abbrev pub minted : EndpointId → Text → List ℕ → InviteCode
  minted id my_name random = record {
    name = my_name;
    id = encode_id I B id;
    token = new_token I B random;
    version = some version;
  }

  unfoldable pub create_invite :
      ℕ → List ℕ → Text → Option Text → ℕ → State I → Result Text × State I
  create_invite now random my_name greeting ttl self = elim (validate_name my_name) [
    | err e ↦ (err e, self)
    | ok _ ↦ (
      ok (encode (minted self.id my_name random)),
      record self {
        invite = some (record {
          token = new_token I B random;
          my_name = my_name;
          greeting = greeting;
          expires_at = now + ttl;
        });
      },
    )
  ]

module _ (I : Iroh) where
  open I use {EndpointId}

  unfoldable pub invite_is_open : ℕ → State I → Bool
  invite_is_open now self = elim self.invite [
    | none ↦ false
    | some pending ↦ ltb now pending.expires_at
  ]

  -- What is done while the lock on the peers is held. `saved` is how writing the file ends.
  unfoldable pub record_peer :
      Result (Unit {0}) → Text → EndpointId → State I → Result Text × State I
  record_peer saved preferred remote self = elim (add_paired I preferred remote self.peers) [
    | err e ↦ (err e, self)
    | ok added ↦ elim saved [
      | err e ↦ (err e, record self { peers = added.1 })
      | ok _ ↦ (ok added.0, record self { peers = added.1; on_disk = added.1 })
    ]
  ]

  -- Our own name, the name that the caller is filed under, and the opening words.
  unfoldable pub redeem_invite :
      ℕ
      → Result (Unit {0})
      → Text
      → EndpointId
      → Text
      → State I
      → Result (Text × Text × Option Text) × State I
  redeem_invite now saved token remote preferred self =
      let (taken, slot) = take_invite now token self.invite in
      let burnt = record self { invite = slot } in
      let (filed, after) = record_peer saved preferred remote burnt in
      elim taken [
        | err e ↦ (err e, burnt)
        | ok pending ↦ elim filed [
          | err e ↦ (err e, after)
          | ok name ↦ (ok (pending.my_name, name, pending.greeting), after)
        ]
      ]

  abbrev pub verdict : Result (Text × Text × Option Text) → JoinResponse
  verdict (ok r) = paired r.0
  verdict (err e) = not_paired e

  -- What a pairing connection came to: its result, the answer on it, and the state after.
  pub record Paired : Type 0 where
    pub outcome : Result (Unit {0})
    pub answer : Option JoinResponse
    pub state : State I

  -- After the answer is written: an opening message to the peer that is new, whose failure is only
  -- logged.
  unfoldable pub open_conversation :
      Codecs
      → Attempt I × Attempt I
      → Stamp
      → Result (Text × Text × Option Text)
      → State I
      → State I
  open_conversation C net stamp (err e) self = self
  open_conversation C net stamp (ok (my_name, name, greeting)) self =
      (send_kind I C net stamp (some name) hello (or_empty greeting) self).1

  unfoldable pub handle_pairing :
      Codecs
      → ℕ
      → Result (Unit {0})
      → Result (Unit {0})
      → Attempt I × Attempt I
      → Stamp
      → EndpointId
      → Reader
      → State I
      → Paired
  handle_pairing C now saved written net stamp remote recv self =
      elim (read_json C.join_request recv) [
        | err e ↦ record { outcome = err e; answer = none; state = self }
        | ok found ↦ elim found.0 [
          | none ↦ record { outcome = err joiner_sent_nothing; answer = none; state = self }
          | some request ↦
              let (redeemed, after) =
                redeem_invite now saved request.token remote request.name self in
              let answer = verdict redeemed in
              elim (write_json C.join_response answer >> written) [
                | err e ↦ record { outcome = err e; answer = some answer; state = after }
                | ok _ ↦ record {
                  outcome = ok tt;
                  answer = some answer;
                  state = open_conversation C net stamp redeemed after;
                }
              ]
        ]
      ]
