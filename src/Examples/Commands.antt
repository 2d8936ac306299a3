-- ===== src/Examples/Commands.antt =====
-- Commands of src/cli.rs on a small machine.
use agent2agent.Cli.Run.{check_join}
use native.Mathlib.Decide.{ℕ_discrete}
use agent2agent.Util.{to_hex}
use agent2agent.System.{requests, prints, draw}
use agent2agent.Cli.Session.{mint_at}
use agent2agent.Base.Chars.{utf8_char}
use agent2agent.Base.Chars.{is_ascii_hexdigit}
use agent2agent.Base.Chars.{as_bytes}
use agent2agent.Util.{from_digit}
use agent2agent.Config.Name.{validate_session_id}
use agent2agent.Config.Paths.{for_session}
use agent2agent.Config.Store.{new_session_id}
use agent2agent.Cli.Session.{mint}
use agent2agent.Cli.Session.{minted_at}
use agent2agent.Config.Paths.{in_session}
use agent2agent.Config.Paths.{resolve}
use agent2agent.Config.Paths.{base_dir}
use agent2agent.Base.Chars.{trim}
use agent2agent.Base.Chars.Split.{split}
use agent2agent.Pairing.Code.{decode_parts}
use agent2agent.Pairing.Code.{decode}
use agent2agent.Base.Map.{insert}
use agent2agent.Config.Name.{is_name_char}
use agent2agent.Base.Chars.{byte_len}
use agent2agent.Config.Name.{validate_name}
use agent2agent.Config.Identity.{remember}
use agent2agent.Config.Store.{load_identity}
use agent2agent.System.{current_dir}
use agent2agent.Ipc.Exchange.{exchange}
use agent2agent.Ipc.Exchange.{request}
use agent2agent.Util.{random_hex}
use agent2agent.Base.{
  ◌≡◌, refl, inl, inr, true, none, some, [], ◌∷◌, ◌++◌, arith, leb, Text, text, nat_eq, text_eq,
  Bool-cases, ok, err, part_count,
}
use agent2agent.Cli.Command.{Cli, Command, PeerAction, paths, chosen_paths, base, is_opening}
use agent2agent.Cli.Dispatch.{name_to_use, remembered}
use agent2agent.Cli.Edited.{Edited, edit, run_peer-Edited}
use agent2agent.Cli.Machine.{run_peer, show_sessions}
use agent2agent.Cli.Minted.{Gone}
use agent2agent.Cli.Minted.Whole.{run-Gone}
use agent2agent.System.Bind.{Fails}
use agent2agent.Cli.Mistyped.{StartsNothing, run-StartsNothing}
use agent2agent.Cli.Names.{name_to_use-Kept}
use agent2agent.Cli.Prune.{Listed, show_sessions-Listed}
use agent2agent.Cli.Run.{run, dispatch}
use agent2agent.Cli.Session.{new_session, ensure_daemon}
use agent2agent.Cli.Start.Live.{IsUpFrom, IsPrompt, ensure_daemon-live}
use agent2agent.Cli.Start.Whole.{Started, ensure_daemon-Started}
use agent2agent.Config.Paths.{sessions_dir, join_path, Paths, from_dir, identity, peers, socket}
use agent2agent.Config.Store.{parent, load_peers}
use agent2agent.Ipc.{Request}
use agent2agent.Examples.Machine.{
  machine-left_peers, machine-left_names, machine, machine-IsClock, machine-IsDisk, elapsed,
}
use agent2agent.Examples.World.{two_keys, plain, alice, many}
use agent2agent.System.{Trace, reads, creates, writes, draws}
use agent2agent.System.Makes.{Makes}

abbrev here : Paths
here = from_dir (text "/b")

abbrev at_home : Command → Cli
at_home command = record { home = some (text "/b"); session = none; command = command }

ensure_daemon-Started_example : Started machine here [] (ensure_daemon machine here [])
ensure_daemon-Started_example = ensure_daemon-Started machine machine-IsClock here []

machine-IsUpFrom : (path : Text) → IsUpFrom machine path 400
unfolding request exchange text_eq
machine-IsUpFrom path t h = let e : leb 400 (elapsed t) ≡ true = ground arith in rw e refl

machine-IsPrompt : (path : Text) → IsPrompt machine path 200
machine-IsPrompt path t = elim (Bool-cases (leb 400 (elapsed t))) [
  | inl e ↦ rw e (omega arith)
  | inr e ↦ rw e (omega arith)
]

ensure_daemon-live_example : (ensure_daemon machine here []).0 ≡ ok tt
ensure_daemon-live_example =
    ensure_daemon-live machine machine-IsClock here [] (text "/bin/agent2agent") 400 200
      (machine-IsUpFrom (socket here)) (machine-IsPrompt (socket here)) (omega arith) refl refl

show_sessions-Listed_example :
    Listed machine
      (text "/b")
      true
      (text "a1" ∷ text "zz" ∷ [])
      []
      (show_sessions machine (text "/b") true (text "a1" ∷ text "zz" ∷ []) [])
show_sessions-Listed_example =
    show_sessions-Listed machine (text "/b") true (text "a1" ∷ text "zz" ∷ []) []

abbrev alice_on_disk : Trace
alice_on_disk = writes (peers here) (text "x") ∷ []

abbrev forget_alice : PeerAction
forget_alice = PeerAction.remove (text "alice")

run_peer-Edited_example :
    Edited machine here
      (reads (peers here) ∷ alice_on_disk)
      (edit two_keys forget_alice alice)
      (run_peer machine two_keys here forget_alice alice_on_disk)
unfolding load_peers peers text_eq join_path from_dir nat_eq
run_peer-Edited_example =
    run_peer-Edited machine two_keys here forget_alice alice alice_on_disk
      (reads (peers here) ∷ alice_on_disk) machine-IsDisk (machine-left_peers (peers here)) tt refl

abbrev bob_saved : Trace
bob_saved =
    writes (identity here) (text "bob")
    ∷ creates (parent (identity here))
    ∷ reads (identity here)
    ∷ []

abbrev invite_asked : Trace
invite_asked = prints (text "code") ∷ requests (socket here) Request.status 5000 ∷ []

name_to_use-Kept_example :
    name_to_use machine here none (invite_asked ++ bob_saved)
    ≡ (ok (text "bob"), reads (identity here) ∷ invite_asked ++ bob_saved)
unfolding name_to_use current_dir load_identity remembered remember validate_name text_eq byte_len
    is_name_char insert
name_to_use-Kept_example =
    (name_to_use-Kept machine machine-IsDisk here (machine-left_names (identity here))
      (text "/home") (text "bob") (text "bob") [] bob_saved invite_asked refl refl
      (inl tt, (inr tt, tt)) refl).1

abbrev mistyped : Cli
mistyped = record {
  home = none;
  session = none;
  command = Command.join (text "x") none (text "hi");
}

run-StartsNothing_example :
    Makes StartsNothing (run two_keys plain machine 3 mistyped)
    × Fails (run two_keys plain machine 3 mistyped)
unfolding decode decode_parts split trim nat_eq
run-StartsNothing_example =
    run-StartsNothing two_keys plain machine 3 mistyped (text "x") none (text "hi") (part_count 1)
      refl refl

abbrev minted_id : Text
minted_id = random_hex (many 4)

abbrev minted : Paths
minted = record {
  base = text "/b";
  dir = join_path (sessions_dir (text "/b")) minted_id;
  session = some minted_id;
}

run-Gone_example :
    ((run two_keys plain machine 3 mistyped []).0 ≡ err (part_count 1))
    × Gone machine minted (run two_keys plain machine 3 mistyped []).1
unfolding base base_dir text_eq paths chosen_paths resolve in_session is_opening new_session
    minted_at mint new_session_id for_session validate_session_id random_hex byte_len from_digit
    as_bytes is_ascii_hexdigit utf8_char nat_eq mint_at from_dir join_path sessions_dir draw to_hex
    ℕ_discrete decode decode_parts split trim dispatch check_join
run-Gone_example =
    run-Gone two_keys plain machine 3 mistyped (text "/b") minted [] (draws 4 ∷ []) (draws 4 ∷ [])
      (part_count 1) refl refl refl refl refl
