-- ===== src/Cli.antt =====
-- src/cli.rs: what the command line does with a message, and with which exit code it ends.
pub mod Asked
pub mod Command
pub mod Session
pub mod Dispatch
pub mod Machine
pub mod Run
pub mod Reach
pub mod Connected
pub mod Start
pub mod Minted
pub mod Names
pub mod Edited
pub mod Prune
pub mod Mistyped
pub mod Received
use agent2agent.Base.{
  ℕ, zero, suc, ◌+◌, ◌-◌, ◌*◌, ◌/◌, ◌%◌, ◌^◌, ◌≤◌, ◌<◌, ◌≡◌, refl, sym, ap, ◌∙◌, ◌≢◌, ◌↔◌, ◌⊎◌, inl,
  inr, Bool, true, false, not, ◌&&◌, ◌||◌, Option, none, some, List, [], ◌∷◌, ◌++◌, map, append-nil,
  append_assoc, arith, ltb, leb, if◌then◌else◌, Text, text, ◌==◌, nat_eq, text_eq, Bool-cases,
  Option-cases, ==_iff, length, get_elem?, take, drop, all, All, All-append, All-map, all→All,
  All→all, length-append, length-map, take-inside, drop-inside, take-beyond, drop-beyond, take_all,
  take-append-drop, length-take-le, append-cancel_left, take-append, drop-append, Result, ok, err,
  ◌>>=◌, ◌>>◌, bail_if, context, ok_or, is_ok, or_zero, within, Context, Error, >>=-eq-ok,
  ok_or-eq-ok, context-eq-ok, bail_if-eq-ok, Result-cases, creating, reading, parsing, writing,
  setting_mode, removing, serializing_state, locating_executable, reading_current_dir,
  reading_stdin, starting_daemon, rounds_over, panics, no_session, no_name_set, empty_message,
  unexpected_reply, daemon_did_not_start, io_failed, bad_toml, bad_json, unknown_peer,
}
use agent2agent.Base.Chars.{join, trim, to_ascii_lowercase}
use agent2agent.Config.Identity.{Identity, name_for, remember}
use agent2agent.Config.Mode.{Mode, parse_mode}
use agent2agent.Ipc.{
  Request, Response, ResponseData, into_data, sent, needs_approval, peer_gone, mode_is,
}
use agent2agent.Render.{render_outgoing}
use agent2agent.Wire.{Kind}

abbrev pub exit_no_message : ℕ
exit_no_message = 3

abbrev pub exit_declined : ℕ
exit_declined = 4

abbrev pub exit_needs_approval : ℕ
exit_needs_approval = 5

abbrev pub exit_peer_gone : ℕ
exit_peer_gone = 6

-- `NoTerminal` is where nobody can be asked.
pub data Approval : Type 0 where
  granted declined no_terminal : Approval

-- Anything but an explicit yes is a no.
unfoldable pub answer_is_yes : Text → Bool
answer_is_yes input =
    let answer = to_ascii_lowercase (trim input) in answer == text "y" || answer == text "yes"

-- The line that the operator types; `none` where there is no terminal to type it at.
unfoldable pub ask_terminal : Option Text → Approval
ask_terminal none = no_terminal
ask_terminal (some answer) = if answer_is_yes answer then granted else declined

-- `trim_end_matches('\n')`
abbrev pub trim_newlines : Text → Text
trim_newlines [] = []
trim_newlines (c ∷ s) = let rest = trim_newlines s in if c == 10 && rest == [] then [] else c ∷ rest

-- `stdin` is what reading it gives.
unfoldable pub message_text : Result Text → List Text → Result Text
message_text stdin [] = do buffer ← stdin; ok (trim_newlines buffer)
message_text stdin (part ∷ parts) = ok (join (text " ") (part ∷ parts))

unfoldable pub collect_message : Result Text → List Text → Result Text
collect_message stdin parts = do
  body ← message_text stdin parts
  bail_if (body == []) empty_message
  ok body

unfoldable pub optional_message : List Text → Text
optional_message parts = join (text " ") parts

-- The name to go by. One that is given is remembered and saved, and `saved` is how saving ends.
unfoldable pub resolve_name : Text → Result Identity → Result (Unit {0}) → Option Text → Result Text
resolve_name dir loaded saved none = do identity ← loaded; ok_or no_name_set (name_for dir identity)
resolve_name dir loaded saved (some name) = do
  identity ← loaded
  remember dir name identity
  saved
  ok name

-- The daemon's answer to a question for its mode.
unfoldable pub read_mode : ResponseData → Result Mode
read_mode (mode_is m) = parse_mode m
read_mode _ = err unexpected_reply

unfoldable pub current_mode : Result Response → Result Mode
current_mode reply = do response ← reply; data_ ← into_data response; read_mode data_

-- One exchange with the daemon, and what the operator answers where it asks for approval.
pub record Exchange : Type 0 where
  pub reply : Result Response
  pub answer : Option Text

-- What is made of a reply: the end, with the exit code and what is printed as the message, or
-- another request, confirmed and for the peer that was named.
pub data Next : Type 0 where
  exits : (code : ℕ) → (shown : Text) → Next
  fails : Error → Next
  sends_confirmed : (peer : Text) → Next

unfoldable pub on_approval : Approval → Text → Next
on_approval granted peer = sends_confirmed peer
on_approval declined peer = exits exit_declined []
on_approval no_terminal peer = exits exit_needs_approval []

unfoldable pub on_data : Text → Option Text → ResponseData → Next
on_data body answer (sent peer id) = exits 0 (render_outgoing body)
on_data body answer (needs_approval peer) = on_approval (ask_terminal answer) peer
on_data body answer (peer_gone peer) = exits exit_peer_gone []
on_data body answer _ = fails unexpected_reply

unfoldable pub on_reply : Text → Exchange → Next
on_reply body e = elim (e.reply >>= into_data) [
  | err problem ↦ fails problem
  | ok data_ ↦ on_data body e.answer data_
]

-- The requests that `deliver` makes in turn, and how it ends: `none` where the exchanges that are
-- given are over before it has.
unfoldable pub deliver :
    List Exchange → Option Text → Kind → Text → Bool → List Request × Option Next
deliver [] to kind body confirmed = (Request.send to body kind confirmed ∷ [], none)
deliver (e ∷ exchanges) to kind body confirmed =
    let request = Request.send to body kind confirmed in
    elim (on_reply body e) [
      | exits code shown ↦ (request ∷ [], some (exits code shown))
      | fails problem ↦ (request ∷ [], some (fails problem))
      | sends_confirmed peer ↦
          let (requests, end_) = deliver exchanges (some peer) kind body true in
          (request ∷ requests, end_)
    ]
