-- ===== src/Inbox.antt =====
-- src/inbox.rs: the daemon's bounded queue of received messages.
pub mod Bounds
pub mod Order
pub mod Wait
pub mod Counts
use agent2agent.Wire.{Kind}
use agent2agent.Base.Int.{ℤ}
use mathlib.Core.Option
use agent2agent.Base.{
  ℕ, zero, suc, ◌+◌, ◌-◌, ◌*◌, ◌/◌, ◌%◌, ◌^◌, ◌≤◌, ◌<◌, ◌≡◌, refl, sym, ap, ◌∙◌, ◌≢◌, ◌↔◌, ◌⊎◌, inl,
  inr, Bool, true, false, not, ◌&&◌, ◌||◌, Option, none, some, List, [], ◌∷◌, ◌++◌, map, append-nil,
  append_assoc, arith, ltb, leb, if◌then◌else◌, Text, text, ◌==◌, nat_eq, text_eq, Bool-cases,
  Option-cases, ==_iff, length, get_elem?, take, drop, all, All, All-append, All-map, all→All,
  All→all, length-append, length-map, take-inside, drop-inside, take-beyond, drop-beyond, take_all,
  take-append-drop, length-take-le, append-cancel_left, take-append, drop-append, Result, ok, err,
  ◌>>=◌, ◌>>◌, bail_if, context, ok_or, is_ok, or_zero, within, Context, Error, >>=-eq-ok,
  ok_or-eq-ok, context-eq-ok, bail_if-eq-ok,
}
use agent2agent.Base.Map
use agent2agent.Base.Map.{Map}

pub record Message : Type 0 where
  pub peer : Text
  pub id : Text
  pub ts : ℤ
  pub kind : Kind
  pub body : Text

abbrev pub default_capacity : ℕ
default_capacity = 1000

-- The capacity and the queue, oldest first.
pub record Inbox : Type 0 where
  pub capacity : ℕ
  pub queue : List Message

-- `Inbox::new`, whose assertion refuses a capacity of zero
unfoldable pub new_inbox : ℕ → Option Inbox
new_inbox capacity =
    if ltb 0 capacity then some (record { capacity = capacity; queue = [] }) else none

-- `pop_front`
abbrev pub pop_front : List Message → Option Message × List Message
pop_front [] = (none, [])
pop_front (m ∷ queue) = (some m, queue)

-- Returns the message that was dropped to make room.
unfoldable pub push : Message → Inbox → Option Message × Inbox
push message self =
    let (evicted, rest) =
      if leb self.capacity (length self.queue) then pop_front self.queue else (none, self.queue) in
    (evicted, record self { queue = rest ++ message ∷ [] })

-- Whether a message is wanted where only one peer's are.
abbrev pub wants : Option Text → Message → Bool
wants none m = true
wants (some name) m = m.peer == name

-- `iter().position(p)`
unfoldable pub position : (Message → Bool) → List Message → Option ℕ
position p [] = none
position p (m ∷ queue) = if p m then some 0 else Option.map suc (position p queue)

-- `VecDeque::remove`: nothing where there is no such place.
unfoldable pub remove_at : ℕ → List Message → Option Message × List Message
remove_at i [] = (none, [])
remove_at zero (m ∷ queue) = (some m, queue)
remove_at (suc i) (m ∷ queue) = let (found, rest) = remove_at i queue in (found, m ∷ rest)

unfoldable pub try_pop : Option Text → Inbox → Option Message × Inbox
try_pop none self =
    let (found, rest) = remove_at 0 self.queue in (found, record self { queue = rest })
try_pop (some name) self = elim (position (wants (some name)) self.queue) [
  | none ↦ (none, self)
  | some index ↦
      let (found, rest) = remove_at index self.queue in (found, record self { queue = rest })
]

unfoldable pub len : Inbox → ℕ
len self = length self.queue

unfoldable pub is_empty : Inbox → Bool
is_empty self = len self == 0

-- `entry(peer).or_insert(0) += 1`
unfoldable pub count_one : Text → Map ℕ → Map ℕ
count_one peer counts = Map.insert peer (or_zero (Map.get peer counts) + 1) counts

unfoldable pub count_all : Map ℕ → List Message → Map ℕ
count_all counts [] = counts
count_all counts (m ∷ queue) = count_all (count_one m.peer counts) queue

unfoldable pub counts : Inbox → Map ℕ
counts self = count_all [] self.queue
