-- ===== src/Daemon/Invite/Locks.antt =====
-- `redeem_invite` of src/daemon.rs by its two locks: callers at the same time, in any order.
use agent2agent.Base.{
  ℕ, suc, ◌+◌, ◌≤◌, ◌≡◌, Option, none, some, List, [], ◌∷◌, arith, Text, nat_eq, text_eq, Result,
  ok, err, Error,
}
use agent2agent.Config.Iroh.{Iroh}
use agent2agent.Daemon.{State, PendingInvite}
use agent2agent.Daemon.Invite.{take_invite, record_peer, create_invite}
use agent2agent.Pairing.Base64.{Base64}

module _ (I : Iroh) (B : Base64) where
  open I use {EndpointId}

  -- Where a caller is: before the lock on the invite, between the two locks, or at an end.
  pub data Caller : Type 0 where
    waiting : (token : Text) → (remote : EndpointId) → (preferred : Text) → Caller
    between : (pending : PendingInvite) → (remote : EndpointId) → (preferred : Text) → Caller
    refused : Error → Caller
    past : Result Text → Caller

  -- What one caller does under one lock.
  pub data Move : Caller → State I → Caller → State I → Type 0 where
    takes :
        {token : Text} {remote : EndpointId} {preferred : Text} {s : State I} (now : ℕ)
        (pending : PendingInvite) (slot : Option PendingInvite)
        → take_invite now token s.invite ≡ (ok pending, slot)
        → Move
            (waiting token remote preferred)
            s
            (between pending remote preferred)
            (record s { invite = slot })
    is_refused :
        {token : Text} {remote : EndpointId} {preferred : Text} {s : State I} (now : ℕ) (e : Error)
        (slot : Option PendingInvite)
        → take_invite now token s.invite ≡ (err e, slot)
        → Move (waiting token remote preferred) s (refused e) (record s { invite = slot })
    files :
        {pending : PendingInvite} {remote : EndpointId} {preferred : Text} {s : State I}
        (saved : Result (Unit {0}))
        → Move
            (between pending remote preferred)
            s
            (past (record_peer I saved preferred remote s).0)
            (record_peer I saved preferred remote s).1

  -- One of the callers moves.
  pub data Step : List Caller → State I → List Caller → State I → Type 0 where
    first :
        {c d : Caller} {s u : State I} {cs : List Caller}
        → Move c s d u
        → Step (c ∷ cs) s (d ∷ cs) u
    later :
        {c : Caller} {s u : State I} {cs ds : List Caller}
        → Step cs s ds u
        → Step (c ∷ cs) s (c ∷ ds) u

  -- What has happened, in any order: the callers have moved, invites were opened, and other tasks
  -- have changed what is not the invite. The number is that of the invites that were opened.
  pub data Reach (cs : List Caller) (s : State I) : ℕ → List Caller → State I → Type 0 where
    starts : Reach cs s 0 cs s
    moves :
        {n : ℕ} {ds es : List Caller} {u v : State I}
        → Reach cs s n ds u
        → Step ds u es v
        → Reach cs s n es v
    opens :
        {n : ℕ} {ds : List Caller} {u : State I} (now : ℕ) (random : List ℕ) (my_name : Text)
        (greeting : Option Text) (ttl : ℕ)
        → Reach cs s n ds u
        → Reach cs s (suc n) ds (create_invite I B now random my_name greeting ttl u).1
    others :
        {n : ℕ} {ds : List Caller} {u v : State I}
        → Reach cs s n ds u
        → v.invite ≡ u.invite
        → Reach cs s n ds v

  -- Those who got past the first lock, and whether an invite is open.
  abbrev pub passed : Caller → ℕ
  passed (waiting token remote preferred) = 0
  passed (between pending remote preferred) = 1
  passed (refused e) = 0
  passed (past r) = 1

  abbrev pub passed_all : List Caller → ℕ
  passed_all [] = 0
  passed_all (c ∷ cs) = passed c + passed_all cs

  abbrev pub open_slot : Option PendingInvite → ℕ
  open_slot none = 0
  open_slot (some pending) = 1

  open_slot-le : (slot : Option PendingInvite) → open_slot slot ≤ 1
  open_slot-le none = omega arith
  open_slot-le (some pending) = omega arith

  -- A refusal opens no invite, and who gets past burns the one that was open.
  refuse-slot :
      (now : ℕ) (token : Text) (o : Option PendingInvite) (e : Error) (slot : Option PendingInvite)
      → take_invite now token o ≡ (err e, slot)
      → open_slot slot ≤ open_slot o
  unfolding take_invite
  refuse-slot now token none e slot h = let is : slot ≡ none = cc in rw is (omega arith)
  refuse-slot now token (some pending) e slot h = open_slot-le slot

  take-slot :
      (now : ℕ) (token : Text) (o : Option PendingInvite) (pending : PendingInvite)
      (slot : Option PendingInvite)
      → take_invite now token o ≡ (ok pending, slot)
      → suc (open_slot slot) ≤ open_slot o
  unfolding take_invite
  take-slot now token none pending slot h = cc
  take-slot now token (some p) pending slot h =
      let is : slot ≡ none = ground arith in rw is (omega arith)

  record_peer-slot :
      (saved : Result (Unit {0})) (preferred : Text) (remote : EndpointId) (s : State I)
      → (record_peer I saved preferred remote s).1.invite ≡ s.invite
  unfolding record_peer
  record_peer-slot saved preferred remote s = ground arith

  locked-le :
      (c : Caller) (s : State I) (d : Caller) (u : State I)
      → Move c s d u
      → passed d + open_slot u.invite ≤ passed c + open_slot s.invite
  locked-le c s d u (takes now pending slot h) =
      omega (arith, take-slot now _ s.invite pending slot h)
  locked-le c s d u (is_refused now e slot h) = omega (arith, refuse-slot now _ s.invite e slot h)
  locked-le c s d u (files saved) = rw (record_peer-slot saved _ _ s) (omega arith)

  stepped-le :
      (cs : List Caller) (s : State I) (ds : List Caller) (u : State I)
      → Step cs s ds u
      → passed_all ds + open_slot u.invite ≤ passed_all cs + open_slot s.invite
  stepped-le cs s ds u (first {c = c} {d = d} move) = omega (arith, locked-le c s d u move)
  stepped-le cs s ds u (later {c = c} {cs = cs'} {ds = ds'} step) =
      omega (arith, stepped-le cs' s ds' u step)

  create-slot :
      (now : ℕ) (random : List ℕ) (my_name : Text) (greeting : Option Text) (ttl : ℕ) (u : State I)
      → open_slot (create_invite I B now random my_name greeting ttl u).1.invite
        ≤ 1 + open_slot u.invite
  create-slot now random my_name greeting ttl u =
      omega (arith, open_slot-le (create_invite I B now random my_name greeting ttl u).1.invite)

  -- In every interleaving of any number of callers, between whose two locks anything may happen to
  -- the rest of the state, the callers that got past the lock on the invite, with the invite that is
  -- still open, are no more than at the start, with the invite that was open then, and with those
  -- that were opened since. So an invite lets at most one caller past, whoever comes at once.
  pub passed-le :
      (cs : List Caller) (s : State I) (n : ℕ) (ds : List Caller) (u : State I)
      → Reach cs s n ds u
      → passed_all ds + open_slot u.invite ≤ passed_all cs + open_slot s.invite + n
  passed-le cs s n ds u starts = omega arith
  passed-le cs s n es v (moves {ds = ds} {u = u} before step) =
      omega (arith, passed-le cs s n ds u before, stepped-le ds u es v step)
  passed-le cs s n ds v (opens {n = k} {u = u} now random my_name greeting ttl before) =
      omega (arith, passed-le cs s k ds u before, create-slot now random my_name greeting ttl u)
  passed-le cs s n ds v (others {u = u} before same) = rw same (passed-le cs s n ds u before)
