-- ===== src/Examples/Peers.antt =====
-- The list of peers.
use agent2agent.Config.Name.{validate_name}
use agent2agent.Base.{suc, ◌≡◌, refl, true, none, some, text, nat_eq, text_eq, length, ok}
use agent2agent.Base.Map
use agent2agent.Base.Map.{Map}
use agent2agent.Base.Chars.{byte_len}
use agent2agent.Config.Name.{validate_name, is_name_char}
use agent2agent.Config.Peers.{no_peers_yet, free_name, resolve, name_for, add_paired, remove}
use agent2agent.Config.Peers.Authorization.{name_for-add_paired, name_for-remove, known_without}
use agent2agent.Config.Peers.Fresh.{free_name-IsFirstFree, IsFirstFree}
use agent2agent.Config.Peers.Invariant.{IsValid, no_peers_yet-IsValid}
use agent2agent.Config.Peers.Kept.{Peers-IsValid}
use agent2agent.Config.Peers.Resolve.{Resolved, resolve-Resolved}
use agent2agent.Examples.World.{two_keys, two_keys-IsLawful, alice}

free_name-IsFirstFree_example :
    IsFirstFree
      (text "alice")
      alice.peers
      0
      (free_name (suc (length alice.peers)) alice.peers (text "alice") 2 (text "alice"))
free_name-IsFirstFree_example = free_name-IsFirstFree (text "alice") alice.peers

pairs_alice : add_paired two_keys (text "alice") true no_peers_yet ≡ ok (text "alice", alice)
unfolding add_paired validate_name name_for free_name text_eq byte_len is_name_char Map.find
    Map.contains_key Map.insert
pairs_alice = refl

pub alice-IsValid : IsValid alice
alice-IsValid =
    (Peers-IsValid two_keys no_peers_yet no_peers_yet-IsValid).1 (text "alice") true (text "alice")
      alice pairs_alice

Peers-IsValid_example : IsValid alice
Peers-IsValid_example =
    (Peers-IsValid two_keys no_peers_yet no_peers_yet-IsValid).1 (text "alice") true (text "alice")
      alice pairs_alice

resolve-Resolved_example : Resolved none alice (resolve none alice)
resolve-Resolved_example = resolve-Resolved none alice alice-IsValid

name_for-add_paired_example : name_for two_keys true alice ≡ some (text "alice")
name_for-add_paired_example =
    (name_for-add_paired two_keys two_keys-IsLawful (text "alice") true no_peers_yet
      no_peers_yet-IsValid (text "alice") alice pairs_alice).0

name_for-remove_example :
    name_for two_keys true (remove (text "alice") alice).1
    ≡ known_without (text "alice") (name_for two_keys true alice)
name_for-remove_example = name_for-remove two_keys alice true (text "alice") alice-IsValid
