-- ===== src/Daemon/Handle.antt =====
-- `handle` of src/daemon.rs: what the daemon does for each request of the command line.
pub mod Approval
pub mod Kept
pub mod Grant
pub mod Requests
pub mod Runs
use agent2agent.Base.{
  ℕ, zero, suc, ◌+◌, ◌-◌, ◌*◌, ◌/◌, ◌%◌, ◌^◌, ◌≤◌, ◌<◌, ◌≡◌, refl, sym, ap, ◌∙◌, ◌≢◌, ◌↔◌, ◌⊎◌, inl,
  inr, Bool, true, false, not, ◌&&◌, ◌||◌, Option, none, some, List, [], ◌∷◌, ◌++◌, map, append-nil,
  append_assoc, arith, ltb, leb, if◌then◌else◌, Text, text, ◌==◌, nat_eq, text_eq, Bool-cases,
  Option-cases, ==_iff, length, get_elem?, take, drop, all, All, All-append, All-map, all→All,
  All→all, length-append, length-map, take-inside, drop-inside, take-beyond, drop-beyond, take_all,
  take-append-drop, length-take-le, append-cancel_left, take-append, drop-append, Result, ok, err,
  ◌>>=◌, ◌>>◌, bail_if, context, ok_or, is_ok, or_zero, within, Context, Error, >>=-eq-ok,
  ok_or-eq-ok, context-eq-ok, bail_if-eq-ok, Result-cases, creating, reading, parsing, writing,
  setting_mode, removing, serializing_state, locating_executable, reading_current_dir,
  reading_stdin, starting_daemon, rounds_over, panics, no_session, no_name_set, empty_message,
  unexpected_reply, daemon_did_not_start, io_failed, bad_toml, bad_json, unknown_peer,
  malformed_request,
}
use mathlib.Core.Option
use agent2agent.Base.Chars.{trim_end_by, is_whitespace}
use agent2agent.Base.Map
use agent2agent.Base.Map.{Map}
use agent2agent.Config.Iroh.{Iroh}
use agent2agent.Config.Mode.{Mode, as_str, is_manual, parse_mode}
use agent2agent.Config.Peers.{Peer, Peers, resolve}
use agent2agent.Daemon.{State}
use agent2agent.Daemon.Deliver.{Attempt, Codecs, Pending, stalled, finished}
use agent2agent.Daemon.Invite.{create_invite, invite_is_open}
use agent2agent.Daemon.Join.{World, join}
use agent2agent.Daemon.Send.{Stamp, send_kind, has_departed, is_msg}
use agent2agent.Inbox.{Message, counts, len}
use agent2agent.Inbox.Wait.{Turn, pop_wait}
use agent2agent.Ipc.{
  Request, Response, ResponseData, StatusInfo, answered, refused, respond, sent, needs_approval,
  peer_gone, message, no_message, invited, mode_is, status_is, done,
}
use agent2agent.Pairing.Base64.{Base64}
use agent2agent.Pairing.Code.{default_ttl_secs}
use agent2agent.Wire.{Kind}

-- What the system and the other tasks do while a request is served.
pub record Env (I : Iroh) : Type 0 where
  pub now : ℕ
  pub token : List ℕ
  pub net : Attempt I × Attempt I
  pub stamp : Stamp
  pub turns : List Turn
  pub joining : World I
  -- what reading peers.toml gives
  pub loaded : Result Peers

abbrev pub or_default_ttl : ℕ → ℕ
or_default_ttl ttl_secs = if ttl_secs == 0 then default_ttl_secs else ttl_secs

abbrev pub is_known_peer : Option Text → Peers → Bool
is_known_peer none peers = true
is_known_peer (some name) peers = Map.contains_key name peers.peers

abbrev pub or_no_name : Option Text → Text
or_no_name none = []
or_no_name (some name) = name

abbrev pub popped : Option Message → Response
popped (some m) = answered (message m)
popped none = answered no_message

unfoldable pub ids : Map Peer → Map Text
ids [] = []
ids (e ∷ rest) = (e.0, e.1.id) ∷ ids rest

module _ (I : Iroh) where
  -- The new mode, where one is named and is one; the mode that holds then.
  unfoldable pub set_or_report_mode : Option Text → State I → Result Mode × State I
  set_or_report_mode none self = (ok self.mode, self)
  set_or_report_mode (some raw) self = elim (parse_mode raw) [
    | err e ↦ (err e, self)
    | ok m ↦ (ok m, record self { mode = m })
  ]

  unfoldable pub reload_peers : Result Peers → State I → Result ℕ × State I
  reload_peers (err e) self = (err e, self)
  reload_peers (ok loaded) self =
      (ok (length loaded.peers), record self { peers = loaded; on_disk = loaded })

  unfoldable pub status_info : ℕ → State I → StatusInfo
  status_info now self = record {
    id = I.to_string self.id;
    peers = ids self.peers.peers;
    default_peer = self.peers.default;
    mode = as_str self.mode;
    invite_open = invite_is_open I now self;
    departed = Map.keys self.departed;
    queued = counts self.inbox;
    queued_total = len self.inbox;
  }

module _ (I : Iroh) (B : Base64) (C : Codecs) where
  -- The arm of `send` after the peer is known. The peer is looked up again to deliver.
  unfoldable pub send_to : Env I → Text → Text → Kind → Bool → State I → Response × State I
  send_to env name body kind confirmed self =
      let (delivered, after) = send_kind I C env.net env.stamp (some name) kind body self in
      if is_msg kind && has_departed I C name self
      then (answered (peer_gone name), self)
      else if is_msg kind && (not confirmed && is_manual self.mode)
      then (answered (needs_approval name), self)
      else (respond (λ r. sent r.0 r.1) delivered, after)

  unfoldable pub handle_send :
      Env I → Option Text → Text → Kind → Bool → State I → Response × State I
  handle_send env peer body kind confirmed self = elim (resolve peer self.peers) [
    | err e ↦ (refused e, self)
    | ok found ↦ send_to env found.0 body kind confirmed self
  ]

  -- `none` where the schedule of the wait ends before the wait does.
  unfoldable pub handle_recv : Env I → Option Text → State I → Option Response × State I
  handle_recv env peer self =
      let (found, inbox) = pop_wait env.turns peer self.inbox in
      if not (is_known_peer peer self.peers)
      then (some (refused (unknown_peer (or_no_name peer))), self)
      else (Option.map popped found, record self { inbox = inbox })

  abbrev pub replied : Pending (Text × Text) → Option Response
  replied stalled = none
  replied (finished r) = some (respond (λ names. ResponseData.joined names.0 names.1) r)

  -- The answer, where there is one within the schedule, and the state after.
  unfoldable pub handle : Env I → Request → State I → Option Response × State I
  handle env (Request.send peer body kind confirmed) self =
      let (response, after) = handle_send env peer body kind confirmed self in
      (some response, after)
  handle env (Request.recv peer wait_ms) self = handle_recv env peer self
  handle env (Request.invite name greeting ttl_secs) self =
      let (code, after) =
        create_invite I B env.now env.token name greeting (or_default_ttl ttl_secs) self in
      (some (respond invited code), after)
  handle env (Request.join code name greeting) self =
      let (result, after) = join I B C env.joining code name greeting self in
      (replied result, after)
  handle env (Request.mode set) self =
      let (result, after) = set_or_report_mode I set self in
      (some (respond (λ m. mode_is (as_str m)) result), after)
  handle env Request.status self = (some (answered (status_is (status_info I env.now self))), self)
  handle env Request.shutdown self = (some (answered done), record self { stopping = true })
  handle env Request.reload self =
      let (result, after) = reload_peers I env.loaded self in
      (some (respond (λ _. done) result), after)

  -- `serve_one`: the line of a client, as `serde_json` reads it; `none` is a client that hung up.
  unfoldable pub serve_one :
      (Text → Option Request) → Env I → Option Text → State I → Option Response × State I
  serve_one parse env none self = (none, self)
  serve_one parse env (some line) self = elim (parse (trim_end_by is_whitespace line)) [
    | none ↦ (some (refused malformed_request), self)
    | some request ↦ handle env request self
  ]
