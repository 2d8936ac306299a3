-- ===== src/Inbox/Counts.antt =====
-- src/inbox.rs, `counts` and `len`: what a status says of the queue.
use agent2agent.Base.{
  ℕ, zero, suc, ◌+◌, ◌≡◌, refl, sym, ap, ◌∙◌, inl, inr, Bool, true, false, Option, none, some, List,
  [], ◌∷◌, arith, Text, ◌==◌, nat_eq, text_eq, Bool-cases, ==_iff, or_zero,
}
use agent2agent.Base.Map
use agent2agent.Base.Map.{Map}
use agent2agent.Base.Map.Laws.{get-insert}
use agent2agent.Inbox.{Message, Inbox, count_one, count_all, counts}

abbrev pub one_if : Bool → ℕ
one_if true = 1
one_if false = 0

-- How many of the messages are from a peer.
abbrev pub from : Text → List Message → ℕ
from peer [] = 0
from peer (m ∷ queue) = one_if (peer == m.peer) + from peer queue

-- A count with `n` more, where a count of nothing has no entry.
abbrev pub with_more : ℕ → Option ℕ → Option ℕ
with_more zero o = o
with_more (suc n) o = some (or_zero o + suc n)

with_more-twice :
    (b : Bool) (n : ℕ) (o : Option ℕ)
    → with_more n (with_more (one_if b) o) ≡ with_more (one_if b + n) o
with_more-twice true zero o = refl
with_more-twice true (suc n) o =
    rw (let e : 1 + suc n ≡ suc (suc n) = omega arith in e) (ap (λ k. some k) (omega arith))
with_more-twice false n o = ap (λ k. with_more k o) (omega arith)

count_one-from :
    (peer : Text) (m : Message) (c : Map ℕ)
    → Map.get peer (count_one m.peer c) ≡ with_more (one_if (peer == m.peer)) (Map.get peer c)
unfolding count_one
count_one-from peer m c =
    get-insert m.peer peer (or_zero (Map.get m.peer c) + 1) c
    ∙ (elim (Bool-cases (peer == m.peer)) [
      | inl e ↦ rw e (ap (λ k. some (or_zero (Map.get k c) + 1)) (sym ((==_iff peer m.peer).0 e)))
      | inr e ↦ rw e refl
    ])

count_all-from :
    (peer : Text) (c : Map ℕ) (queue : List Message)
    → Map.get peer (count_all c queue) ≡ with_more (from peer queue) (Map.get peer c)
unfolding count_all
count_all-from peer c [] = refl
count_all-from peer c (m ∷ queue) =
    count_all-from peer (count_one m.peer c) queue
    ∙ ap (λ o. with_more (from peer queue) o) (count_one-from peer m c)
    ∙ with_more-twice (peer == m.peer) (from peer queue) (Map.get peer c)

-- The counts of a status hold for each peer the number of its messages in the queue, and nothing
-- for a peer that has none.
pub counts-from :
    (s : Inbox) (peer : Text) → Map.get peer (counts s) ≡ with_more (from peer s.queue) none
unfolding counts Map.get
counts-from s peer = count_all-from peer [] s.queue
