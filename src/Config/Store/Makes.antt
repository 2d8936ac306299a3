-- ===== src/Config/Store/Makes.antt =====
-- The calls that src/config.rs makes for its files.
use agent2agent.Config.Peers.{Peers}
use agent2agent.Config.Paths.{secret_key, Paths}
use agent2agent.Config.Identity.{Identity}
use agent2agent.Base.{Text, nat_eq, text_eq}
use agent2agent.System.{System, Call, creates, writes, restricts, reads, removes, checks, draws}
use agent2agent.System.Makes.{Makes, calls_make}
use agent2agent.Config.Store.{
  parent, owner_dir, owner_file, ensure_dir, remove_state, load_identity, save_identity, load_peers,
  save_peers, load_key, new_session_id,
}

module _ (S : System) {P : Call → Type 0} where
  pub ensure_dir-Makes :
      (self : Paths)
      → P (creates self.dir)
      → P (restricts self.dir owner_dir)
      → Makes P (ensure_dir S self)
  unfolding ensure_dir
  ensure_dir-Makes self p q = search calls_make

  pub remove_state-Makes :
      (self : Paths) → P (checks self.dir) → P (removes self.dir) → Makes P (remove_state S self)
  unfolding remove_state
  remove_state-Makes self p q = search calls_make

  pub load_identity-Makes : (path : Text) → P (reads path) → Makes P (load_identity S path)
  unfolding load_identity
  load_identity-Makes path p = search calls_make

  pub save_identity-Makes :
      (self : Identity) (path : Text)
      → P (creates (parent path))
      → ((contents : Text) → P (writes path contents))
      → Makes P (save_identity S self path)
  unfolding save_identity
  save_identity-Makes self path p q = search calls_make

  pub load_peers-Makes : (path : Text) → P (reads path) → Makes P (load_peers S path)
  unfolding load_peers
  load_peers-Makes path p = search calls_make

  pub save_peers-Makes :
      (self : Peers) (path : Text)
      → P (creates (parent path))
      → ((contents : Text) → P (writes path contents))
      → P (restricts path owner_file)
      → Makes P (save_peers S self path)
  unfolding save_peers
  save_peers-Makes self path p q r = search calls_make

  pub load_key-Makes :
      (self : Paths)
      → P (checks (secret_key self))
      → P (reads (secret_key self))
      → P (creates self.dir)
      → P (restricts self.dir owner_dir)
      → P (draws 32)
      → ((contents : Text) → P (writes (secret_key self) contents))
      → P (restricts (secret_key self) owner_file)
      → Makes P (load_key S self)
  unfolding load_key
  load_key-Makes self p q r s d w m = search (calls_make, ensure_dir-Makes) depth 12

  pub new_session_id-Makes : P (draws 4) → Makes P (new_session_id S)
  unfolding new_session_id
  new_session_id-Makes p = search calls_make

pub ruleset store_makes = (
  ensure_dir-Makes, remove_state-Makes, load_identity-Makes, save_identity-Makes, load_peers-Makes,
  save_peers-Makes, load_key-Makes, new_session_id-Makes,
)
