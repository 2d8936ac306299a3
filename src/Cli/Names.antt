-- ===== src/Cli/Names.antt =====
-- `resolve_name` and `run_whoami` of src/cli.rs: a name that is given once is the name from then on.
use agent2agent.Cli.Machine.{set_or_show, show_name}
use agent2agent.Cli.Machine.{run_whoami}
use agent2agent.Base.{
  ◌≡◌, refl, sym, ap, ◌∙◌, none, some, ◌∷◌, ◌++◌, Text, nat_eq, text_eq, All, ok,
}
use agent2agent.Cli.Dispatch.{success, name_to_use, remembered}
use agent2agent.Config.Identity.{Identity, remember, name_for, name_for-remember}
use agent2agent.Config.Paths.{from_dir, Paths, identity}
use agent2agent.Config.Store.{load_identity, save_identity}
use agent2agent.Config.Store.Kept.{
  IsDisk, IsLeft, Leaves, file-later, load_identity-later, load-save_identity,
}
use agent2agent.System.Bind.{bind-ok, bind-eq-ok}
use agent2agent.System.{
  requests, spawns, sleeps, serves, asks, reads_stdin, Call, prints, System, Trace, ◌>>=◌, lift,
  return, reads, current_dir,
}

-- The calls that let other programs run, of which none writes the file of names.
abbrev pub Others : Call → Type 0
Others (requests path req timeout) = Unit {0}
Others (spawns program args) = Unit {0}
Others (sleeps ms) = Unit {0}
Others (serves dir) = Unit {0}
Others (asks preview) = Unit {0}
Others reads_stdin = Unit {0}
Others _ = ⊥

current_dir-at :
    (S : System) (t : Trace) (dir : Text) → S.current_dir t ≡ ok dir → current_dir S t ≡ (ok dir, t)
unfolding current_dir
current_dir-at S t dir h = rw h refl

module _ (S : System) (disk : IsDisk S) (paths : Paths)
    (left : IsLeft S (identity paths) Others) where
  remembered-Kept :
      (dir name n : Text) (self : Identity) (t u : Trace)
      → remembered S paths dir self (some name) t ≡ (ok n, u)
      → (n ≡ name)
        × (changed : Identity) × (name_for dir changed ≡ some name)
        × (load_identity S (identity paths) u ≡ (ok changed, reads (identity paths) ∷ u))
  unfolding remembered
  remembered-Kept dir name n self t u h =
      let save = λ (changed : Identity). save_identity S changed (identity paths) in
      let named = λ (_ : Unit {0}). return name in
      let (changed, made, k) =
        bind-eq-ok (lift (remember dir name self)) (λ (c : Identity). (save c >>= named)) t u n h in
      let (_, saved, r) = bind-eq-ok (save changed) named t u n k in
      let end_ : u ≡ (save changed t).1 = sym (ap (λ p. p.1) r) in
      let is : n ≡ name = cc in
      let saved_as : save changed t ≡ (ok tt, u) = λ i. (saved i, (sym end_) i) in
      (
        is,
        changed,
        (name_for-remember dir name self changed made).0,
        load-save_identity S disk (identity paths) changed t u saved_as,
      )

  unnamed :
      (dir name : Text) (self : Identity) (v : Trace)
      → name_for dir self ≡ some name
      → remembered S paths dir self none v ≡ (ok name, v)
  unfolding remembered
  unnamed dir name self v named = rw named refl

  shown :
      (dir name : Text) (self : Identity) (v : Trace)
      → name_for dir self ≡ some name
      → set_or_show S (from_dir paths.base) dir self none v ≡ (ok success, prints name ∷ v)
  unfolding set_or_show show_name
  shown dir name self v named = rw named refl

  -- A name that `invite` or `join` was given, in a directory, is remembered, on a disk that keeps
  -- what is written, with a `toml` that reads back what it prints, and where no other program writes
  -- the file of names: the commands that are given none use it in that directory later, and `whoami`
  -- prints it and succeeds, whatever requests and other calls were made meanwhile, but that the file
  -- was not written again and nothing was deleted.
  pub name_to_use-Kept :
      (dir name n : Text) (t u v : Trace)
      → S.current_dir t ≡ ok dir
      → name_to_use S paths (some name) t ≡ (ok n, u)
      → All (Leaves Others (identity paths)) v
      → S.current_dir (v ++ u) ≡ ok dir
      → let w = v ++ u in
        (n ≡ name)
        × (name_to_use S paths none w ≡ (ok name, reads (identity paths) ∷ w))
        × (run_whoami S paths.base none w ≡ (ok success, prints name ∷ reads (identity paths) ∷ w))
  unfolding name_to_use run_whoami identity from_dir
  name_to_use-Kept dir name n t u v there h later here =
      let path = identity paths in
      let give =
        λ (d : Text). (load_identity S path >>= λ self. remembered S paths d self (some name)) in
      let k = sym (bind-ok (current_dir S) give t t dir (current_dir-at S t dir there)) ∙ h in
      let keep = λ (self : Identity). remembered S paths dir self (some name) in
      let (self, _, r) = bind-eq-ok (load_identity S path) keep t u n k in
      let (is, changed, named, saved) =
        remembered-Kept dir name n self (load_identity S path t).1 u r in
      let w = v ++ u in
      let loaded =
        load_identity-later S path u w changed (file-later S disk path Others left v u later)
          saved in
      let again = λ (c : Identity). remembered S paths dir c none in
      let show = λ (c : Identity). set_or_show S (from_dir paths.base) dir c none in
      (
        is,
        bind-ok (current_dir S)
              (λ (d : Text). (load_identity S path >>= λ c. remembered S paths d c none)) w w dir
              (current_dir-at S w dir here)
            ∙ bind-ok (load_identity S path) again w (reads path ∷ w) changed loaded
            ∙ unnamed dir name changed (reads path ∷ w) named,
        bind-ok (current_dir S)
              (λ (d : Text).
                (load_identity S path >>= λ c. set_or_show S (from_dir paths.base) d c none))
              w w dir (current_dir-at S w dir here)
            ∙ bind-ok (load_identity S path) show w (reads path ∷ w) changed loaded
            ∙ shown dir name changed (reads path ∷ w) named,
      )
