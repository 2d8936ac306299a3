-- ===== src/Examples/Pairings.antt =====
-- Pairings.
use agent2agent.Daemon.Invite.Locks.{
  Caller, Reach, waiting, between, takes, first, starts, moves, passed_all, passed-le,
}
use agent2agent.Base.Chars.{as_bytes}
use agent2agent.Base.Chars.{trim, is_whitespace}
use agent2agent.Config.Peers.{parse_endpoint_id}
use agent2agent.Base.{
  ℕ, ◌+◌, ◌≤◌, ◌≡◌, refl, true, none, some, List, [], ◌∷◌, text, nat_eq, text_eq, ok, err, within,
  io_failed, cannot_reach_inviter,
}
use agent2agent.Base.Chars.{byte_len}
use agent2agent.Base.Map
use agent2agent.Base.Map.{Map}
use agent2agent.Config.Name.{validate_name, is_name_char}
use agent2agent.Config.Peers.{no_peers_yet, add_paired, name_for, free_name, endpoint_addr}
use agent2agent.Config.Peers.Invariant.{no_peers_yet-IsValid}
use agent2agent.Daemon.Deliver.{stalled}
use agent2agent.Daemon.Invite.{take_invite, record_peer, redeem_invite}
use agent2agent.Daemon.Invite.Once.{Try, successes, successes-le}
use agent2agent.Daemon.Invite.Redeemed.{Redeemed, redeem_invite-Redeemed}
use agent2agent.Daemon.Join.{dial, World, join_inviter, authorize, address_of, perform_join}
use agent2agent.Daemon.Join.Restores.{join_inviter-restores}
use agent2agent.Examples.World.{
  two_keys, two_keys-IsLawful, plain, small_codecs, open_invite, daemon, answers, stamp, many,
}
use agent2agent.Pairing.Code.{InviteCode}
use agent2agent.Pairing.Token.{tokens_match, difference}

abbrev attempt : ℕ → Try two_keys
attempt now = record {
  now = now;
  saved = ok tt;
  token = text "t";
  remote = true;
  preferred = text "alice";
}

successes-le_example :
    successes two_keys (attempt 5 ∷ attempt 6 ∷ []) (daemon (some open_invite) no_peers_yet) ≤ 1
successes-le_example =
    successes-le two_keys (attempt 5 ∷ attempt 6 ∷ []) (daemon (some open_invite) no_peers_yet)

redeem_invite-Redeemed_example :
    Redeemed two_keys 5
      (text "t")
      true
      (daemon (some open_invite) no_peers_yet)
      (text "alice", text "bob", some (text "hi"))
      (redeem_invite two_keys 5
        (ok tt)
        (text "t")
        true
        (text "bob")
        (daemon (some open_invite) no_peers_yet)).1
unfolding redeem_invite take_invite tokens_match text_eq as_bytes nat_eq difference record_peer
    add_paired validate_name byte_len is_name_char name_for Map.find free_name Map.contains_key
redeem_invite-Redeemed_example =
    redeem_invite-Redeemed two_keys two_keys-IsLawful 5 (ok tt) (text "t") true (text "bob")
      (daemon (some open_invite) no_peers_yet) (text "alice", text "bob", some (text "hi"))
      no_peers_yet-IsValid refl

abbrev unreachable : World two_keys
unreachable = record {
  saved = ok tt;
  pairing = record {
    deadline = 30;
    dials = record { outcome = err io_failed; clock = 31 } ∷ [];
    open_bi = ok tt;
    written = ok tt;
    finish = ok tt;
    reply = stalled;
  };
  net = (answers, answers);
  stamp = stamp;
  saved_again = ok tt;
}

abbrev code_of_alice : InviteCode
code_of_alice = record { name = text "alice"; id = many 32; token = text "t"; version = none }

join_inviter-restores_example :
    name_for two_keys true
      (join_inviter two_keys plain small_codecs unreachable none
        (code_of_alice, text "bob", true)
        (daemon none no_peers_yet)).1.peers
    ≡ name_for two_keys true (daemon none no_peers_yet).peers
unfolding add_paired validate_name byte_len is_name_char name_for Map.find free_name
    Map.contains_key Map.insert Map.get text_eq authorize address_of endpoint_addr parse_endpoint_id
    trim is_whitespace nat_eq perform_join dial
join_inviter-restores_example =
    (join_inviter-restores two_keys two_keys-IsLawful plain small_codecs unreachable none
        code_of_alice (text "bob") true (daemon none no_peers_yet)
        (text "alice", record { id = true; addrs = [] }) (within cannot_reach_inviter io_failed)
        no_peers_yet-IsValid refl refl refl).1
      true

abbrev both_wait : List (Caller two_keys plain)
both_wait = waiting (text "t") true (text "bob") ∷ waiting (text "t") true (text "eve") ∷ []

abbrev one_holds : List (Caller two_keys plain)
one_holds = between open_invite true (text "bob") ∷ waiting (text "t") true (text "eve") ∷ []

bob_first :
    Reach two_keys plain both_wait
      (daemon (some open_invite) no_peers_yet)
      0
      one_holds
      (daemon none no_peers_yet)
unfolding take_invite tokens_match difference as_bytes text_eq nat_eq
bob_first = moves starts (
    first (
      takes {token = text "t"} {s = daemon (some open_invite) no_peers_yet} 5 open_invite none
        refl))

passed-le_example : passed_all two_keys plain one_holds + 0 ≤ 0 + 1 + 0
passed-le_example =
    passed-le two_keys plain both_wait (daemon (some open_invite) no_peers_yet) 0 one_holds
      (daemon none no_peers_yet) bob_first
