-- ===== src/Inbox/Bounds.antt =====
-- src/inbox.rs, `push` and `try_pop`: the capacity of the queue, and what a push drops.
use agent2agent.Base.{
  ℕ, zero, suc, ◌≤◌, ◌<◌, ◌≡◌, refl, ◌≢◌, ◌↔◌, inl, inr, Option, none, some, List, [], ◌∷◌, ◌++◌,
  arith, leb, Text, nat_eq, text_eq, Bool-cases, length, length-append,
}
use agent2agent.Inbox.{pop_front, Message, Inbox, push, try_pop, remove_at, position, wants}

pub record IsBounded (s : Inbox) : Type 0 where
  pub positive : 0 < s.capacity
  pub fits : length s.queue ≤ s.capacity

abbrev pub to_list : Option Message → List Message
to_list none = []
to_list (some m) = m ∷ []

pub record IsPushed (m : Message) (s : Inbox) (r : Option Message × Inbox) : Type 0 where
  pub sequence : to_list r.0 ++ r.1.queue ≡ s.queue ++ m ∷ []
  pub evicts : r.0 ≢ none ↔ length s.queue ≡ s.capacity
  pub bounded : IsBounded r.1
  pub capacity : r.1.capacity ≡ s.capacity

push_full :
    (m : Message) (capacity : ℕ) (queue : List Message)
    → 0 < capacity
    → length queue ≡ capacity
    → IsPushed m
        (record { capacity = capacity; queue = queue })
        ((pop_front queue).0, record { capacity = capacity; queue = (pop_front queue).1 ++ m ∷ [] })
push_full m k [] b e = absurd (omega (arith, e, b))
push_full m k (x ∷ queue) b e = record {
  sequence = refl;
  evicts = (λ _. e, λ _. cc);
  bounded = record { positive = b; fits = omega (arith, e, length-append queue (m ∷ [])) };
  capacity = refl;
}

push_free :
    (m : Message) (s : Inbox)
    → IsBounded s
    → length s.queue < s.capacity
    → IsPushed m s (none, record s { queue = s.queue ++ m ∷ [] })
push_free m s b h = record {
  sequence = refl;
  evicts = (λ n. absurd (n refl), λ e. absurd (omega (arith, e, h)));
  bounded = record {
    positive = b.positive;
    fits = omega (arith, h, length-append s.queue (m ∷ []));
  };
  capacity = refl;
}

-- On a bounded inbox a push appends the message: what it evicts, followed by the new queue, is
-- the old queue followed by the message. It evicts one exactly when the queue was full, and the
-- inbox stays within the same capacity.
pub push-IsPushed : (m : Message) (s : Inbox) → IsBounded s → IsPushed m s (push m s)
unfolding push
push-IsPushed m s b = elim (Bool-cases (leb s.capacity (length s.queue))) [
  | inl full ↦ rw full (push_full m s.capacity s.queue b.positive (ground (arith, b.fits)))
  | inr free ↦ rw free (push_free m s b (ground arith))
]

length-remove_at : (i : ℕ) (q : List Message) → length (remove_at i q).1 ≤ length q
unfolding remove_at
length-remove_at i [] = omega arith
length-remove_at zero (m ∷ q) = omega arith
length-remove_at (suc i) (m ∷ q) = omega (arith, length-remove_at i q)

at_place :
    (o : Option ℕ) (s : Inbox)
    → IsBounded s
    → let r : Option Message × Inbox = elim o [
      | none ↦ (none, s)
      | some index ↦ ((remove_at index s.queue).0, record s { queue = (remove_at index s.queue).1 })
    ] in
      IsBounded r.1
at_place none s b = b
at_place (some i) s b = record {
  positive = b.positive;
  fits = omega (arith, b.fits, length-remove_at i s.queue);
}

pub try_pop-IsBounded : (p : Option Text) (s : Inbox) → IsBounded s → IsBounded (try_pop p s).1
unfolding try_pop
try_pop-IsBounded none s b = record {
  positive = b.positive;
  fits = omega (arith, b.fits, length-remove_at 0 s.queue);
}
try_pop-IsBounded (some name) s b = at_place (position (wants (some name)) s.queue) s b
