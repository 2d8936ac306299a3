-- ===== src/Config/Store/Kept.antt =====
-- The files of src/config.rs: what is saved is what is loaded later.
use agent2agent.Config.Store.{write_text}
use agent2agent.System.{◌>>=◌}
use agent2agent.Base.{
  ◌≡◌, refl, sym, ap, ◌∙◌, ◌≢◌, ◌⊎◌, inl, inr, some, [], ◌∷◌, ◌++◌, Text, nat_eq, text_eq, All,
  Result, ok, context, ok_or, ok_or-eq-ok, context-eq-ok, writing, serializing_state, bad_toml,
}
use agent2agent.Config.Identity.{Identity}
use agent2agent.Config.Peers.{Peers}
use agent2agent.Config.Store.{
  parent, owner_file, load_identity, save_identity, load_peers, save_peers,
}
use agent2agent.System.{
  System, Trace, Call, File, requests, spawns, sleeps, serves, reads, writes, restricts, removes,
  reads_stdin, asks, lift, write, create_dir, set_mode, read_file,
}
use agent2agent.System.Bind.{bind-eq-ok}

-- The calls that leave the contents of a file as they are. Another process may write it.
abbrev pub Spares : Text → Call → Type 0
Spares path (writes other contents) = other ≢ path
Spares path (removes other) = ⊥
Spares path (requests other req timeout) = ⊥
Spares path (spawns program args) = ⊥
Spares path (serves dir) = ⊥
Spares path (sleeps ms) = ⊥
Spares path (asks preview) = ⊥
Spares path reads_stdin = ⊥
Spares path _ = Unit {0}

-- What is relied on of the file system and of `toml`.
pub record IsDisk (S : System) : Type 0 where
  pub wrote :
      (path contents : Text) (t : Trace)
      → S.written t path contents ≡ ok tt
      → S.file (writes path contents ∷ t) path ≡ File.holds contents
  pub spared :
      (path : Text) (c : Call) (t : Trace) → Spares path c → S.file (c ∷ t) path ≡ S.file t path
  pub identity_reads :
      (self : Identity) (contents : Text)
      → S.identity_toml self ≡ some contents
      → S.toml_identity contents ≡ some self
  pub peers_read :
      (self : Peers) (contents : Text)
      → S.peers_toml self ≡ some contents
      → S.toml_peers contents ≡ some self

-- What is relied on of other programs: a call of `Others` lets them run, and they leave the file.
pub record IsLeft (S : System) (path : Text) (Others : Call → Type 0) : Type 0 where
  pub left : (c : Call) (t : Trace) → Others c → S.file (c ∷ t) path ≡ S.file t path

abbrev pub Leaves : (Call → Type 0) → Text → Call → Type 0
Leaves Others path c = Spares path c ⊎ Others c

-- A file is the same after calls that leave it.
pub file-later :
    (S : System) (disk : IsDisk S) (path : Text) (Others : Call → Type 0)
    → IsLeft S path Others
    → (v t : Trace) → All (Leaves Others path) v
    → S.file (v ++ t) path ≡ S.file t path
file-later S disk path Others left [] t h = refl
file-later S disk path Others left (c ∷ v) t h =
    elim h.0 [
      | inl spares ↦ disk.spared path c (v ++ t) spares
      | inr other ↦ left.left c (v ++ t) other
    ]
    ∙ file-later S disk path Others left v t h.1

pub load_identity-later :
    (S : System) (path : Text) (t w : Trace) (self : Identity)
    → S.file w path ≡ S.file t path
    → load_identity S path t ≡ (ok self, reads path ∷ t)
    → load_identity S path w ≡ (ok self, reads path ∷ w)
unfolding load_identity read_file
load_identity-later S path t w self same h =
    let loaded = ap (λ (r : Result Identity × Trace). r.0) h in
    rw same (λ i. (loaded i, reads path ∷ w))

pub load_peers-later :
    (S : System) (path : Text) (t w : Trace) (self : Peers)
    → S.file w path ≡ S.file t path
    → load_peers S path t ≡ (ok self, reads path ∷ t)
    → load_peers S path w ≡ (ok self, reads path ∷ w)
unfolding load_peers read_file
load_peers-later S path t w self same h =
    let loaded = ap (λ (r : Result Peers × Trace). r.0) h in
    rw same (λ i. (loaded i, reads path ∷ w))

module _ (S : System) (disk : IsDisk S) (path : Text) where
  write-Kept :
      (contents : Text) (t u : Trace)
      → write S path contents t ≡ (ok tt, u)
      → (u ≡ writes path contents ∷ t) × (S.file u path ≡ File.holds contents)
  unfolding write
  write-Kept contents t u h =
      let done = context-eq-ok (writing path) (S.written t path contents) (ap (λ p. p.0) h) in
      let e : u ≡ writes path contents ∷ t = sym (ap (λ p. p.1) h) in
      (e, rw e (disk.wrote path contents t done))

  restricted_later :
      (v u : Trace) → set_mode S path owner_file v ≡ (ok tt, u) → S.file u path ≡ S.file v path
  unfolding set_mode
  restricted_later v u k =
      let e : u ≡ restricts path owner_file ∷ v = sym (ap (λ p. p.1) k) in
      rw e (disk.spared path (restricts path owner_file) v tt)

  saved-Kept :
      (serialized : Result Text) (t u : Trace)
      → write_text S path serialized t ≡ (ok tt, u)
      → (contents : Text) × (serialized ≡ ok contents) × (S.file u path ≡ File.holds contents)
  saved-Kept serialized t u h =
      let last = λ (contents : Text). write S path contents in
      let r = context serializing_state serialized in
      let (_, _, k) =
        bind-eq-ok (create_dir S (parent path)) (λ (_ : Unit {0}). lift r >>= last) t u tt h in
      let v = (create_dir S (parent path) t).1 in
      let (contents, e, w) = bind-eq-ok (lift r) last v u tt k in
      (contents, context-eq-ok serializing_state serialized e, (write-Kept contents v u w).1)

  -- An identity that was saved is the one that is loaded next.
  pub load-save_identity :
      (self : Identity) (t u : Trace)
      → save_identity S self path t ≡ (ok tt, u)
      → load_identity S path u ≡ (ok self, reads path ∷ u)
  unfolding save_identity load_identity read_file
  load-save_identity self t u h =
      let (contents, e, held) = saved-Kept (ok_or bad_toml (S.identity_toml self)) t u h in
      let toml = ok_or-eq-ok bad_toml (S.identity_toml self) e in
      rw held (rw (disk.identity_reads self contents toml) refl)

  -- A peer list that was saved is the one that is loaded next.
  pub load-save_peers :
      (self : Peers) (t u : Trace)
      → save_peers S self path t ≡ (ok tt, u)
      → load_peers S path u ≡ (ok self, reads path ∷ u)
  unfolding save_peers load_peers read_file
  load-save_peers self t u h =
      let serialized = ok_or bad_toml (S.peers_toml self) in
      let last = λ (_ : Unit {0}). set_mode S path owner_file in
      let (_, wrote, k) = bind-eq-ok (write_text S path serialized) last t u tt h in
      let v = (write_text S path serialized t).1 in
      let (contents, e, held) = saved-Kept serialized t v (λ i. (wrote i, v)) in
      let after = restricted_later v u k in
      let toml = ok_or-eq-ok bad_toml (S.peers_toml self) e in
      rw (after ∙ held) (rw (disk.peers_read self contents toml) refl)
