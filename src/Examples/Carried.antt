-- ===== src/Examples/Carried.antt =====
-- A message from one daemon to another, with codecs that read back what they write.
use agent2agent.Base.Map.{contains_key}
use agent2agent.Daemon.Send.{has_departed}
use agent2agent.Base.Chars.{trim}
use agent2agent.Config.Peers.{parse_endpoint_id}
use agent2agent.Config.Peers.{endpoint_addr}
use agent2agent.Base.Map.{get}
use agent2agent.Config.Peers.{implied}
use agent2agent.Config.Peers.{resolve}
use agent2agent.Daemon.Send.{addressee}
use agent2agent.Wire.Frame.{to_be_bytes}
use agent2agent.Wire.Frame.{write_frame}
use agent2agent.Util.{new_message_id}
use agent2agent.Base.Int.{as_i64}
use agent2agent.Util.{now_ts}
use agent2agent.Wire.Json.{write_json}
use agent2agent.Config.Peers.{EndpointAddr}
use agent2agent.Base.{
  ℕ, ◌≡◌, refl, ap, Bool, true, false, ◌&&◌, Option, none, some, List, [], ◌∷◌, arith,
  if◌then◌else◌, Text, text, ◌==◌, nat_eq, text_eq, ok,
}
use agent2agent.Base.Int.{ℤ, pos, negsuc}
use agent2agent.Daemon.Deliver.{Codecs}
use agent2agent.Daemon.Send.{send_kind}
use agent2agent.Daemon.Send.Carried.{Carries, send_kind-IsHeard}
use agent2agent.Examples.World.{two_keys, small_codecs, alice, daemon, answers, accepting, stamp}
use agent2agent.Wire.{Kind, msg, hello, bye, WireMsg, ack_ok, of_kind}
use agent2agent.Wire.Frame.Stream.{Reader, chunk}

-- Only plain messages at one time are written, as their bodies.
abbrev plain_body : ℕ → Text → ℤ → Kind → Text → Option Text
plain_body v id (pos n) msg body = if v == 1 && (id == [] && n == 5) then some body else none
plain_body v id (pos n) hello body = none
plain_body v id (pos n) bye body = none
plain_body v id (negsuc n) kind body = none

abbrev plain_message : Text → WireMsg
plain_message body = record { v = 1; id = []; ts = pos 5; kind = msg; body = body }

plain-reads :
    (v : ℕ) (id : Text) (ts : ℤ) (kind : Kind) (body bytes : Text)
    → plain_body v id ts kind body ≡ some bytes
    → plain_message bytes ≡ record { v = v; id = id; ts = ts; kind = kind; body = body }
plain-reads v id (pos n) msg body bytes h = ground arith
plain-reads v id (pos n) hello body bytes h = cc
plain-reads v id (pos n) bye body bytes h = cc
plain-reads v id (negsuc n) kind body bytes h = cc

abbrev plain_ack : ℕ → Bool → Option Text → Option (List ℕ)
plain_ack v true none = if v == 1 then some (1 ∷ []) else none
plain_ack v true (some e) = none
plain_ack v false e = none

ack-reads :
    (v : ℕ) (accepted : Bool) (e : Option Text) (bytes : List ℕ)
    → plain_ack v accepted e ≡ some bytes
    → ack_ok ≡ record { v = v; accepted = accepted; error = e }
ack-reads v true none bytes h = ground arith
ack-reads v true (some e) bytes h = cc
ack-reads v false e bytes h = cc

abbrev plain_codecs : Codecs
plain_codecs = record small_codecs {
  wire_msg = record {
    to_vec = λ m. plain_body m.v m.id m.ts m.kind m.body;
    from_slice = λ bytes. some (plain_message bytes);
  };
  ack = record {
    to_vec = λ a. plain_ack a.v a.accepted a.error;
    from_slice = λ bytes. some ack_ok;
  };
}

abbrev hi_frame : Reader
hi_frame = chunk 0 (0 ∷ 0 ∷ 2 ∷ b'h' ∷ []) ∷ chunk b'i' [] ∷ []

hi-Carries : Carries plain_codecs.wire_msg (of_kind [] (some 5) msg (text "hi")) hi_frame
unfolding write_json of_kind now_ts as_i64 nat_eq text_eq new_message_id write_frame to_be_bytes
hi-Carries = record {
  frame = 0 ∷ 0 ∷ 0 ∷ 2 ∷ text "hi";
  printed = refl;
  healthy = tt;
  bytes = refl;
}

ok-Carries : Carries plain_codecs.ack ack_ok accepting
unfolding write_json nat_eq write_frame to_be_bytes
ok-Carries = record { frame = 0 ∷ 0 ∷ 0 ∷ 1 ∷ 1 ∷ []; printed = refl; healthy = tt; bytes = refl }

abbrev alice_addr : EndpointAddr two_keys
alice_addr = record { id = true; addrs = [] }

send_kind-IsHeard_example :
    (send_kind two_keys plain_codecs
      (answers, answers)
      stamp
      none
      msg
      (text "hi")
      (daemon none alice)).0
    ≡ ok (text "alice", [])
unfolding addressee resolve implied get text_eq endpoint_addr parse_endpoint_id trim nat_eq
    has_departed contains_key of_kind new_message_id
send_kind-IsHeard_example =
    (send_kind-IsHeard two_keys plain_codecs (answers, answers) stamp none msg (text "hi")
      (text "alice") (text "bob") alice_addr hi_frame accepting (daemon none alice)
      (daemon none alice)
      (λ m bytes h. ap (λ x. some x) (plain-reads m.v m.id m.ts m.kind m.body bytes h))
      (λ a bytes h. ap (λ x. some x) (ack-reads a.v a.accepted a.error bytes h)) refl refl
      (record {
        number = 7;
        connects = refl;
        opens = λ connection. refl;
        takes = refl;
        ends = refl;
        answers = refl;
      })
      hi-Carries ok-Carries (omega arith)).0
