-- ===== src/Examples/Sessions.antt =====
-- Sessions, identities, keys, sockets and the command line.
use agent2agent.Daemon.Socket.{Files}
use agent2agent.Base.Chars.{is_ascii_hexdigit}
use agent2agent.Base.{
  ℕ, zero, suc, ◌≡◌, refl, true, false, none, some, List, [], ◌∷◌, ◌++◌, arith, Text, text, nat_eq,
  text_eq, ok,
}
use agent2agent.Base.Chars.{byte_len}
use agent2agent.Config.Identity.{Identity}
use agent2agent.Config.Key.{holds, load_or_create_secret_key, load_or_create_secret_key-again}
use agent2agent.Config.Name.{validate_session_id}
use agent2agent.Config.Paths.Sessions.{components, for_session-injective}
use agent2agent.Config.Paths.{Paths, for_session, sessions_dir, join_path}
use agent2agent.Cli.{Exchange, deliver}
use agent2agent.Cli.Asked.{IsDelivery, deliver-IsDelivery}
use agent2agent.Examples.World.{many}
use agent2agent.Ipc.{answered, needs_approval, sent}
use agent2agent.Ipc.Exchange.{Json}
use agent2agent.Util.{to_hex}
use agent2agent.Util.Hex.{AreBytes}
use agent2agent.Wire.{msg}

abbrev session_paths : Text → Paths
session_paths id = record {
  base = text "/b";
  dir = join_path (sessions_dir (text "/b")) id;
  session = some id;
}

for_session-injective_example :
    components (session_paths (text "a1")).dir
    ≡ components (sessions_dir (text "/b")) ++ text "a1" ∷ []
unfolding for_session validate_session_id text_eq byte_len is_ascii_hexdigit
for_session-injective_example =
    (for_session-injective (text "/b") (text "a1") (text "b2") (session_paths (text "a1"))
      (session_paths (text "b2")) refl refl).0

abbrev nameless : Identity
nameless = record { default = none; dirs = [] }

abbrev named : Identity
named = record { default = none; dirs = (text "/home", text "bob") ∷ [] }

are_bytes : (n : ℕ) → AreBytes (many n)
are_bytes zero = tt
are_bytes (suc n) = (omega arith, are_bytes n)

load_or_create_secret_key-again_example :
    load_or_create_secret_key (ok tt) (ok tt) (ok tt) [] (holds (to_hex (many 32) ++ 10 ∷ []))
    ≡ (ok (many 32), holds (to_hex (many 32) ++ 10 ∷ []))
unfolding load_or_create_secret_key
load_or_create_secret_key-again_example =
    (load_or_create_secret_key-again (many 32) [] (ok tt) (ok tt) (ok tt) (are_bytes 32) refl).1

abbrev asks_once : List Exchange
asks_once =
    record { reply = ok (answered (needs_approval (text "alice"))); answer = some (text "y\n") }
    ∷ record { reply = ok (answered (sent (text "alice") (text "m1"))); answer = none }
    ∷ []

deliver-IsDelivery_example :
    IsDelivery msg
      (text "hi")
      asks_once
      none
      false
      (deliver asks_once none msg (text "hi") false).0
      (deliver asks_once none msg (text "hi") false).1
deliver-IsDelivery_example = deliver-IsDelivery asks_once none msg (text "hi") false

abbrev no_json : Json
no_json = record { to_string = λ r. none; from_str = λ t. none }

abbrev stale_file : Files
stale_file = record {
  ensured = ok tt;
  exists = true;
  answer = none;
  removed = ok tt;
  bound = ok tt;
  restricted = ok tt;
}
