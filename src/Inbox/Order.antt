-- ===== src/Inbox/Order.antt =====
-- src/inbox.rs, `try_pop`: which message is taken, and what stays behind.
use mathlib.Core.Option
use agent2agent.Base.{
  ℕ, suc, ◌≡◌, refl, ap, ◌≢◌, inl, inr, Bool, true, false, Option, none, some, List, [], ◌∷◌, ◌++◌,
  Text, nat_eq, text_eq, Bool-cases, All,
}
use agent2agent.Inbox.{Message, Inbox, try_pop, remove_at, position, wants}

-- The first of the messages that satisfy `p` is taken out of `q`, with no other moved.
abbrev pub Taken : (Message → Bool) → List Message → Message → List Message → Type 0
Taken p q m rest =
    (before : List Message) × (after : List Message) × (q ≡ before ++ m ∷ after)
    × (rest ≡ before ++ after)
    × (p m ≡ true)
    × All (λ x. p x ≡ false) before

-- What a look for a message satisfying `p` comes to.
abbrev pub Popped : (Message → Bool) → List Message → Option Message → List Message → Type 0
Popped p q none rest = (rest ≡ q) × All (λ x. p x ≡ false) q
Popped p q (some m) rest = Taken p q m rest

Taken-cons :
    (p : Message → Bool) (x : Message) (q : List Message) (o : Option Message) (rest : List Message)
    → p x ≡ false
    → Popped p q o rest
    → Popped p (x ∷ q) o (x ∷ rest)
Taken-cons p x q none rest e (h, k) = (ap (λ r. x ∷ r) h, (e, k))
Taken-cons p x q (some m) rest e (before, after, h, k, w, l) =
    (x ∷ before, after, ap (λ r. x ∷ r) h, ap (λ r. x ∷ r) k, w, (e, l))

-- What `position` and `remove` come to together.
unfoldable PoppedAt : (Message → Bool) → List Message → Option ℕ → Type 0
PoppedAt p q none = All (λ x. p x ≡ false) q
PoppedAt p q (some i) = Popped p q (remove_at i q).0 (remove_at i q).1 × ((remove_at i q).0 ≢ none)

PoppedAt-suc :
    (p : Message → Bool) (x : Message) (q : List Message) (o : Option ℕ)
    → p x ≡ false
    → PoppedAt p q o
    → PoppedAt p (x ∷ q) (Option.map suc o)
unfolding remove_at PoppedAt
PoppedAt-suc p x q none e h = (e, h)
PoppedAt-suc p x q (some i) e (h, k) = (Taken-cons p x q _ _ e h, k)

position-Popped : (p : Message → Bool) (q : List Message) → PoppedAt p q (position p q)
unfolding position remove_at PoppedAt
position-Popped p [] = tt
position-Popped p (m ∷ q) = elim (Bool-cases (p m)) [
  | inl e ↦ rw e (([], q, refl, refl, e, tt), λ h. cc)
  | inr e ↦ rw e (PoppedAt-suc p m q (position p q) e (position-Popped p q))
]

at_place :
    (s : Inbox) (peer : Option Text) (o : Option ℕ)
    → PoppedAt (wants peer) s.queue o
    → let r : Option Message × Inbox = elim o [
      | none ↦ (none, s)
      | some index ↦ ((remove_at index s.queue).0, record s { queue = (remove_at index s.queue).1 })
    ] in
      Popped (wants peer) s.queue r.0 r.1.queue
unfolding PoppedAt
at_place s peer none h = (refl, h)
at_place s peer (some i) h = h.0

at_front : (q : List Message) → Popped (wants none) q (remove_at 0 q).0 (remove_at 0 q).1
unfolding remove_at
at_front [] = (refl, tt)
at_front (m ∷ q) = ([], q, refl, refl, refl, tt)

-- A look at the inbox takes the oldest message that is wanted and leaves the others in their
-- order; where it takes nothing, no queued message is wanted and the queue is as it was.
pub try_pop-Popped :
    (peer : Option Text) (s : Inbox)
    → Popped (wants peer) s.queue (try_pop peer s).0 (try_pop peer s).1.queue
unfolding try_pop remove_at PoppedAt
try_pop-Popped none s = at_front s.queue
try_pop-Popped (some name) s =
    at_place s (some name) (position (wants (some name)) s.queue)
      (position-Popped (wants (some name)) s.queue)
