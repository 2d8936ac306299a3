-- ===== src/Examples/Machine.antt =====
-- A small operating system for the examples: a daemon that answers from the time 400 on, a disk that
-- keeps what is written, and one known peer.
use agent2agent.Config.Peers.{Peer}
use agent2agent.Base.Map.{Map}
use agent2agent.Base.{
  ℕ, ◌+◌, ◌≤◌, ◌≡◌, refl, ap, inl, inr, true, Option, none, some, [], ◌∷◌, arith, leb,
  if◌then◌else◌, Text, text, ◌==◌, nat_eq, text_eq, Bool-cases, ==_iff, ok,
}
use agent2agent.Config.Identity.{Identity}
use agent2agent.Config.Peers.{Peers, no_peers_yet}
use agent2agent.Cli.Edited.{Unpaired}
use agent2agent.Cli.Names.{Others}
use agent2agent.Config.Store.Kept.{IsDisk, IsLeft, Spares}
use agent2agent.Cli.Start.{IsClock}
use agent2agent.Examples.World.{alice, many}
use agent2agent.Ipc.{Request, Response, answered, no_message, done}
use agent2agent.System.{System, Trace, Call, File, Directory, sleeps, writes, requests}

abbrev pub elapsed : Trace → ℕ
elapsed [] = 0
elapsed (sleeps ms ∷ t) = elapsed t + ms
elapsed (_ ∷ t) = elapsed t

abbrev pub written_to : Text → Trace → Option Text
written_to path [] = none
written_to path (writes other contents ∷ t) =
    let rest = written_to path t in if other == path then some contents else rest
written_to path (_ ∷ t) = written_to path t

abbrev pub known_file : Option Text → File
known_file none = File.missing
known_file (some contents) = File.holds contents

abbrev pub line_for : Request → Text
line_for (Request.recv from ms) = b'r' ∷ []
line_for _ = b'd' ∷ []

abbrev pub reply_of_line : Text → Option Response
reply_of_line s = some (answered (if s == text "r" then no_message else done))

-- Only the name of one directory is kept, and only an empty peer list.
abbrev pub name_of : Option Text → Map Text → Option Text
name_of none ((dir, name) ∷ []) = if dir == text "/home" then some name else none
name_of none [] = none
name_of none (_ ∷ _ ∷ _) = none
name_of (some d) dirs = none

abbrev pub empty_of : Option Text → Map Peer → Option Text
empty_of none [] = some []
empty_of none (_ ∷ _) = none
empty_of (some d) known = none

abbrev pub read_list : Text → Option Peers
read_list [] = some no_peers_yet
read_list (c ∷ s) = some alice

abbrev pub machine : System
machine = record {
  environment = record {
    home_var = some (text "/b");
    session_var = none;
    xdg_config_home = none;
    home = none;
  };
  wire = λ t path req. some (record { connect = ok tt; written = ok tt; line = ok (line_for req) });
  json = record { to_string = λ req. some (b'q' ∷ []); from_str = reply_of_line };
  exists = λ t path. leb 400 (elapsed t);
  executable = λ t. ok (text "/bin/agent2agent");
  spawned = λ t program args. ok tt;
  now = elapsed;
  served = λ t dir. ok tt;
  file = λ t path. known_file (written_to path t);
  entries = λ t path. Directory.holds (text "a1" ∷ []);
  created = λ t path. ok tt;
  written = λ t path contents. ok tt;
  restricted = λ t path mode. ok tt;
  removed = λ t path. ok tt;
  bound = λ t path. ok tt;
  endpoint = λ t key. ok tt;
  current_dir = λ t. ok (text "/home");
  random = λ t bytes. many bytes;
  stdin = λ t. ok (text "hi");
  answer = λ t. none;
  public = λ key. key;
  identity_toml = λ self. name_of self.default self.dirs;
  toml_identity = λ s. some (record { default = none; dirs = (text "/home", s) ∷ [] });
  peers_toml = λ self. empty_of self.default self.peers;
  toml_peers = read_list;
  id_json = λ id. id;
  peers_json = λ self. some [];
  status_json = λ self. some [];
  message_json = λ m. some m.body;
}

later : (c : Call) (t : Trace) → elapsed t ≤ elapsed (c ∷ t)
later (sleeps ms) t = omega arith
later _ t = omega arith

pub machine-IsClock : IsClock machine
machine-IsClock = record { later = later; slept = λ ms t. omega arith }

wrote :
    (path contents : Text) (t : Trace)
    → known_file (written_to path (writes path contents ∷ t)) ≡ File.holds contents
wrote path contents t = let e : (path == path) ≡ true = (==_iff path path).1 refl in rw e refl

spared :
    (path : Text) (c : Call) (t : Trace)
    → Spares path c
    → known_file (written_to path (c ∷ t)) ≡ known_file (written_to path t)
spared path (writes other contents) t h = elim (Bool-cases (other == path)) [
  | inl e ↦ absurd (h ((==_iff other path).0 e))
  | inr e ↦ rw e refl
]
spared path _ t h = refl

name_reads :
    (default_ : Option Text) (dirs : Map Text) (contents : Text)
    → name_of default_ dirs ≡ some contents
    → ◌≡◌ {A = Identity}
        (record { default = none; dirs = (text "/home", contents) ∷ [] })
        (record { default = default_; dirs = dirs })
name_reads none ((dir, name) ∷ []) contents h = elim (Bool-cases (dir == text "/home")) [
  | inl e ↦ let at = (==_iff dir (text "/home")).0 e in ground arith
  | inr e ↦ absurd (ground arith)
]
name_reads none [] contents h = cc
name_reads none (_ ∷ _ ∷ _) contents h = cc
name_reads (some d) dirs contents h = cc

list_reads :
    (default_ : Option Text) (known : Map Peer) (contents : Text)
    → empty_of default_ known ≡ some contents
    → read_list contents ≡ some (record { default = default_; peers = known })
list_reads none [] [] h = refl
list_reads none [] (c ∷ s) h = cc
list_reads none (_ ∷ _) contents h = cc
list_reads (some d) known contents h = cc

pub machine-IsDisk : IsDisk machine
machine-IsDisk = record {
  wrote = λ path contents t h. wrote path contents t;
  spared = spared;
  identity_reads =
      λ self contents h. ap (λ x. some x) (name_reads self.default self.dirs contents h);
  peers_read = λ self contents h. list_reads self.default self.peers contents h;
}

-- Nobody else writes the peer list of the machine, nor its file of names.
pub machine-left_peers : (path : Text) → IsLeft machine path Unpaired
machine-left_peers path = record { left = λ c t h. unpaired_left c t h }
  where
    unpaired_left :
        (c : Call) (t : Trace) → Unpaired c → machine.file (c ∷ t) path ≡ machine.file t path
    unpaired_left (requests _ req timeout) t h = refl
    unpaired_left _ t h = absurd h

pub machine-left_names : (path : Text) → IsLeft machine path Others
machine-left_names path = record { left = λ c t h. others_left c t h }
  where
    others_left :
        (c : Call) (t : Trace) → Others c → machine.file (c ∷ t) path ≡ machine.file t path
    others_left (writes other contents) t h = absurd h
    others_left _ t h = refl
