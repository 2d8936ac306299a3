-- ===== src/Examples/Queue.antt =====
-- The queue of received messages.
use agent2agent.Base.{refl, true, false, none, some, List, [], ◌∷◌, arith, text, nat_eq, text_eq}
use agent2agent.Examples.World.{from_alice}
use agent2agent.Inbox.{remove_at, Inbox, push, try_pop, wants}
use agent2agent.Inbox.Bounds.{IsPushed, push-IsPushed}
use agent2agent.Inbox.Order.{Popped, try_pop-Popped}
use agent2agent.Inbox.Wait.{apply, pushed, Turn, pop_wait, IsOneLook, pop_wait-IsOneLook}

abbrev full : Inbox
full = record { capacity = 2; queue = from_alice (text "one") ∷ from_alice (text "two") ∷ [] }

push-IsPushed_example :
    IsPushed (from_alice (text "three")) full (push (from_alice (text "three")) full)
push-IsPushed_example =
    push-IsPushed (from_alice (text "three")) full
      (record { positive = omega arith; fits = omega arith })

try_pop-Popped_example :
    Popped
      (wants (some (text "alice")))
      full.queue
      (try_pop (some (text "alice")) full).0
      (try_pop (some (text "alice")) full).1.queue
try_pop-Popped_example = try_pop-Popped (some (text "alice")) full

abbrev empty_inbox : Inbox
empty_inbox = record { capacity = 2; queue = [] }

-- A message is pushed during the first wait, and the second look finds it.
abbrev one_push : List Turn
one_push =
    record { expired = false; ops = pushed (from_alice (text "one")) ∷ []; timer = false }
    ∷ record { expired = false; ops = []; timer = true }
    ∷ []

pop_wait-IsOneLook_example :
    IsOneLook one_push none empty_inbox (some (from_alice (text "one"))) empty_inbox
unfolding pop_wait try_pop push apply remove_at
pop_wait-IsOneLook_example =
    (pop_wait-IsOneLook none empty_inbox).0 one_push (some (from_alice (text "one"))) empty_inbox
      refl
