-- ===== src/Inbox/Wait.antt =====
-- src/inbox.rs, `pop_wait`: the other tasks push and pop while it waits. What they do, and how its
-- wait ends, is a schedule: a turn for each round of the loop.
use agent2agent.Base.{
  ◌≡◌, refl, sym, ap, ◌≢◌, ◌⊎◌, inl, inr, Bool, true, ◌||◌, Option, none, some, List, [], ◌∷◌, ◌++◌,
  append_assoc, arith, if◌then◌else◌, Text, nat_eq, text_eq, Bool-cases, Option-cases,
}
use agent2agent.Inbox.{Message, Inbox, push, try_pop, wants}
use agent2agent.Inbox.Bounds.{IsBounded, push-IsPushed, try_pop-IsBounded}
use agent2agent.Inbox.Order.{Popped, try_pop-Popped}

pub data Op : Type 0 where
  pushed : Message → Op
  popped : Option Text → Op

unfoldable pub apply : List Op → Inbox → Inbox
apply [] s = s
apply (pushed m ∷ ops) s = apply ops (push m s).1
apply (popped peer ∷ ops) s = apply ops (try_pop peer s).1

-- Whether the deadline is past at the check, what the others do then, and whether it is the timer
-- that ends the wait, and not a push.
pub record Turn : Type 0 where
  pub expired : Bool
  pub ops : List Op
  pub timer : Bool

-- `none` where the schedule ends and the caller still waits.
unfoldable pub pop_wait : List Turn → Option Text → Inbox → Option (Option Message) × Inbox
pop_wait [] peer self = (none, self)
pop_wait (turn ∷ turns) peer self =
    let (found, after) = try_pop peer self in
    let later = apply turn.ops after in
    let (last, final) = try_pop peer later in
    let rest = pop_wait turns peer later in
    elim found [
      | some message ↦ (some (some message), after)
      | none ↦
          if turn.expired
          then (some none, after)
          else if turn.timer
          then (some last, final)
          else rest
    ]

abbrev pub all_ops : List Turn → List Op
all_ops [] = []
all_ops (turn ∷ turns) = turn.ops ++ all_ops turns

-- What the wait gave is what one look at the inbox gives after some of the others' operations.
pub record IsOneLook (turns : List Turn) (peer : Option Text) (s : Inbox) (found : Option Message)
    (after : Inbox) : Type 0 where
  pub earlier : List Op
  pub later : List Op
  pub schedule : all_ops turns ≡ earlier ++ later
  pub look : try_pop peer (apply earlier s) ≡ (found, after)

apply-append : (a b : List Op) (s : Inbox) → apply (a ++ b) s ≡ apply b (apply a s)
unfolding apply
apply-append [] b s = refl
apply-append (pushed m ∷ a) b s = apply-append a b (push m s).1
apply-append (popped p ∷ a) b s = apply-append a b (try_pop p s).1

untouched :
    (p : Message → Bool) (q : List Message) (o : Option Message) (rest : List Message)
    → o ≡ none
    → Popped p q o rest
    → rest ≡ q
untouched p q none rest h k = k.0
untouched p q (some m) rest h k = absurd (cc)

same_inbox : (a b : Inbox) → a.capacity ≡ b.capacity → a.queue ≡ b.queue → a ≡ b
same_inbox a b c q =
    let t : a ≡ record { capacity = b.capacity; queue = b.queue } = rw (sym c, sym q) refl in t

try_pop-capacity : (peer : Option Text) (s : Inbox) → (try_pop peer s).1.capacity ≡ s.capacity
unfolding try_pop
try_pop-capacity none s = refl
try_pop-capacity (some name) s = ground arith

try_pop-none : (peer : Option Text) (s : Inbox) → (try_pop peer s).0 ≡ none → (try_pop peer s).1 ≡ s
try_pop-none peer s h = same_inbox (try_pop peer s).1 s (try_pop-capacity peer s) (
    untouched (wants peer) s.queue (try_pop peer s).0 (try_pop peer s).1.queue h
      (try_pop-Popped peer s))

one_look :
    (turns : List Turn) (peer : Option Text) (s : Inbox) {found : Option Message} {after : Inbox}
    → pop_wait turns peer s ≡ (some found, after)
    → IsOneLook turns peer s found after
unfolding pop_wait apply
one_look [] peer s h = cc
one_look (turn ∷ turns) peer s {found} {after} h =
    let at_once : try_pop peer s ≡ (found, after) → IsOneLook (turn ∷ turns) peer s found after =
      λ look. record {
        earlier = [];
        later = all_ops (turn ∷ turns);
        schedule = refl;
        look = look;
      } in
    elim (Option-cases (try_pop peer s).0) [
      | inr (m, e) ↦ at_once (ground arith)
      | inl e ↦
          let same = try_pop-none peer s e in
          elim (Bool-cases turn.expired) [
            | inl x ↦ at_once (ground arith)
            | inr x ↦ elim (Bool-cases turn.timer) [
              | inl t ↦ record {
                earlier = turn.ops;
                later = all_ops turns;
                schedule = refl;
                look = ground (arith, same);
              }
              | inr t ↦
                  let r =
                    one_look turns peer (apply turn.ops s) {found = found} {after = after}
                      (ground (arith, same)) in
                  record {
                    earlier = turn.ops ++ r.earlier;
                    later = r.later;
                    schedule =
                        rw (append_assoc turn.ops r.earlier r.later)
                          (ap (λ l. turn.ops ++ l) r.schedule);
                    look = rw (apply-append turn.ops r.earlier s) r.look;
                  }
            ]
          ]
    ]

returns_at :
    (turn : Turn) (peer : Option Text) (s : Inbox) (turns : List Turn)
    → turn.expired || turn.timer ≡ true
    → (pop_wait (turn ∷ turns) peer s).0 ≢ none
unfolding pop_wait
returns_at turn peer s turns h = ground arith

returns_later :
    (turn : Turn) (peer : Option Text) (s : Inbox) (turns : List Turn)
    → (pop_wait turns peer (apply turn.ops (try_pop peer s).1)).0 ≢ none
    → (pop_wait (turn ∷ turns) peer s).0 ≢ none
unfolding pop_wait
returns_later turn peer s turns h = ground arith

returns :
    (turns more : List Turn) (turn : Turn) (peer : Option Text) (s : Inbox)
    → turn.expired || turn.timer ≡ true
    → (pop_wait (turns ++ turn ∷ more) peer s).0 ≢ none
returns [] more turn peer s h = returns_at turn peer s more h
returns (t ∷ turns) more turn peer s h =
    returns_later t peer s (turns ++ turn ∷ more)
      (returns turns more turn peer (apply t.ops (try_pop peer s).1) h)

-- A wait that ends gave what a single look at the inbox gives at some moment of the schedule, so
-- that nothing is lost and nothing is taken out of turn; and it ends at the latest in the first
-- turn whose deadline is past or whose timer fires.
pub pop_wait-IsOneLook :
    (peer : Option Text) (s : Inbox)
    → ((turns : List Turn) (found : Option Message) (after : Inbox)
        → pop_wait turns peer s ≡ (some found, after)
        → IsOneLook turns peer s found after)
      × ((turns more : List Turn) (turn : Turn)
          → turn.expired || turn.timer ≡ true
          → (pop_wait (turns ++ turn ∷ more) peer s).0 ≢ none)
pop_wait-IsOneLook peer s = (
  λ turns found after h. one_look turns peer s h,
  λ turns more turn h. returns turns more turn peer s h,
)

-- The capacity holds whatever the others do, and after the wait.
apply-IsBounded : (ops : List Op) (s : Inbox) → IsBounded s → IsBounded (apply ops s)
unfolding apply
apply-IsBounded [] s b = b
apply-IsBounded (pushed m ∷ ops) s b =
    apply-IsBounded ops (push m s).1 (push-IsPushed m s b).bounded
apply-IsBounded (popped p ∷ ops) s b = apply-IsBounded ops (try_pop p s).1 (try_pop-IsBounded p s b)

pub pop_wait-IsBounded :
    (turns : List Turn) (peer : Option Text) (s : Inbox)
    → IsBounded s
    → IsBounded (pop_wait turns peer s).1
unfolding pop_wait
pop_wait-IsBounded [] peer s b = b
pop_wait-IsBounded (turn ∷ turns) peer s b =
    let first = try_pop-IsBounded peer s b in
    let later = apply-IsBounded turn.ops (try_pop peer s).1 first in
    let again = apply turn.ops (try_pop peer s).1 in
    let waited = pop_wait (turn ∷ turns) peer s in
    let e : (waited.1 ≡ (try_pop peer s).1)
        ⊎ ((waited.1 ≡ (try_pop peer again).1) ⊎ (waited.1 ≡ (pop_wait turns peer again).1)) =
      ground arith in
    elim e [
      | inl a ↦ rw a first
      | inr r ↦ elim r [
        | inl a ↦ rw a (try_pop-IsBounded peer again later)
        | inr a ↦ rw a (pop_wait-IsBounded turns peer again later)
      ]
    ]
