-- ===== src/Examples/World.antt =====
-- A small world to run the program of src in: two keys, and codecs that can be read at a glance.
use agent2agent.Base.{
  ℕ, zero, suc, ◌≡◌, refl, Bool, true, false, Option, none, some, List, [], ◌∷◌, if◌then◌else◌,
  Text, text, nat_eq, text_eq, length, ok, err, stream_failed,
}
use agent2agent.Config.Iroh.{Iroh, IsLawful}
use agent2agent.Config.Peers.{Peers}
use agent2agent.Daemon.{State, PendingInvite}
use agent2agent.Daemon.Deliver.{Attempt, Codecs, finished}
use agent2agent.Daemon.Send.{Stamp}
use agent2agent.Inbox.{Message}
use agent2agent.Config.Mode.{manual}
use agent2agent.Pairing.Base64.{Base64}
use agent2agent.Pairing.Join.{paired}
use agent2agent.Wire.{WireMsg, msg, Ack, ack_ok, ack_error}
use agent2agent.Wire.Frame.Stream.{Reader, chunk}
use agent2agent.Base.Int.{pos}

-- Two keys. The one that is `true` prints as one letter, the other as two.
abbrev pub key_text : Bool → Text
key_text true = text "a"
key_text false = text "ab"

abbrev pub text_key : Text → Option Bool
text_key [] = none
text_key (c ∷ []) = some true
text_key (c ∷ d ∷ s) = some false

abbrev pub many : ℕ → List ℕ
many zero = []
many (suc n) = 97 ∷ many n

abbrev pub key_bytes : Bool → List ℕ
key_bytes true = 97 ∷ many 31
key_bytes false = 0 ∷ many 31

abbrev pub bytes_key : List ℕ → Option Bool
bytes_key [] = none
bytes_key (zero ∷ bytes) = some false
bytes_key (suc b ∷ bytes) = some true

abbrev pub two_keys : Iroh
two_keys = record {
  EndpointId = Bool;
  same = hlevel;
  to_string = key_text;
  from_str = text_key;
  as_bytes = key_bytes;
  from_bytes = bytes_key;
  SocketAddr = Text;
  parse_addr = λ s. some s;
}

pub two_keys-IsLawful : IsLawful two_keys
two_keys-IsLawful = record {
  from_str-to_string = round_text;
  from_bytes-as_bytes = round_bytes;
  length-as_bytes = thirty_two;
}
  where
    round_text : (k : Bool) → text_key (key_text k) ≡ some k
    round_text true = refl
    round_text false = refl

    round_bytes : (k : Bool) → bytes_key (key_bytes k) ≡ some k
    round_bytes true = refl
    round_bytes false = refl

    thirty_two : (k : Bool) → length (key_bytes k) ≡ 32
    thirty_two true = refl
    thirty_two false = refl

-- Bytes stand for themselves.
abbrev pub plain : Base64
plain = record { encode = λ bytes. bytes; decode = λ bytes. some bytes }

abbrev pub a_message : Text → WireMsg
a_message body = record { v = 1; id = text "m1"; ts = pos 0; kind = msg; body = body }

abbrev pub read_ack_byte : List ℕ → Option Ack
read_ack_byte [] = none
read_ack_byte (zero ∷ bytes) = some (ack_error [])
read_ack_byte (suc b ∷ bytes) = some ack_ok

abbrev pub small_codecs : Codecs
small_codecs = record {
  wire_msg = record { to_vec = λ m. some m.body; from_slice = λ bytes. some (a_message bytes) };
  ack = record {
    to_vec = λ a. some (if a.accepted then 1 ∷ [] else 0 ∷ []);
    from_slice = read_ack_byte;
  };
  join_request = record {
    to_vec = λ r. some r.token;
    from_slice = λ bytes. some (record { v = 1; token = bytes; name = text "bob" });
  };
  join_response = record {
    to_vec = λ r. some [];
    from_slice = λ bytes. some (paired (text "alice"));
  };
}

-- A frame that holds an acknowledgement.
abbrev pub accepting : Reader
accepting = chunk 0 (0 ∷ 0 ∷ 1 ∷ 1 ∷ []) ∷ []

abbrev pub answers : Attempt two_keys
answers = record {
  is_closed = λ c. false;
  connect = λ addr. finished (ok 7);
  open_bi = λ connection. finished (ok tt);
  written = finished (ok tt);
  finish = ok tt;
  reply = finished (ok accepting);
}

abbrev pub hangs_up : Attempt two_keys
hangs_up = record answers { open_bi = λ connection. finished (err stream_failed) }

abbrev pub stamp : Stamp
stamp = record { random = []; clock = some 5 }

abbrev pub alice : Peers
alice = record {
  default = some (text "alice");
  peers = (text "alice", record { id = text "a"; addrs = [] }) ∷ [];
}

abbrev pub open_invite : PendingInvite
open_invite = record {
  token = text "t";
  my_name = text "alice";
  greeting = some (text "hi");
  expires_at = 100;
}

-- The daemon of the key that is `false`.
abbrev pub daemon : Option PendingInvite → Peers → State two_keys
daemon invite peers = record {
  id = false;
  inbox = record { capacity = 2; queue = [] };
  peers = peers;
  invite = invite;
  stopping = false;
  mode = manual;
  departed = [];
  connections = [];
  on_disk = peers;
}

abbrev pub from_alice : Text → Message
from_alice body = record {
  peer = text "alice";
  id = text "m1";
  ts = pos 0;
  kind = msg;
  body = body;
}
