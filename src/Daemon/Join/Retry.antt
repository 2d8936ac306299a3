-- ===== src/Daemon/Join/Retry.antt =====
-- The retry loop of `perform_join` in src/daemon.rs.
use agent2agent.Base.{
  ℕ, ◌≤◌, ◌≡◌, ◌≢◌, ◌⊎◌, inl, inr, List, [], ◌∷◌, ◌++◌, arith, nat_eq, text_eq, ok, Result-cases,
}
use agent2agent.Daemon.Deliver.{stalled}
use agent2agent.Daemon.Join.{Dial, dial}

-- The tries are the same up to the first that connects or ends at the deadline or later.
abbrev pub EndsBy : ℕ → Dial → Type 0
EndsBy deadline d = ((u : Unit {0}) × (d.outcome ≡ ok u)) ⊎ (deadline ≤ d.clock)

ends_at :
    (deadline : ℕ) (d : Dial) (later : List Dial)
    → EndsBy deadline d
    → dial deadline (d ∷ later) ≢ stalled
unfolding dial
ends_at deadline d later (inl (u, e)) = rw e (λ h. cc)
ends_at deadline d later (inr late) = elim (Result-cases d.outcome) [
  | inl good ↦ rw good.1 (λ h. cc)
  | inr bad ↦ rw bad.1 (λ h. ground arith)
]

goes_on :
    (deadline : ℕ) (d : Dial) (later : List Dial)
    → dial deadline later ≢ stalled
    → dial deadline (d ∷ later) ≢ stalled
unfolding dial
goes_on deadline d later n = elim (Result-cases d.outcome) [
  | inl good ↦ rw good.1 (λ h. cc)
  | inr bad ↦ rw bad.1 (ground arith)
]

-- The loop ends, whatever came before, with the first try that connects, and at the latest with
-- the first that fails when the deadline is past.
pub dial-ends :
    (deadline : ℕ) (earlier later : List Dial) (d : Dial)
    → EndsBy deadline d
    → dial deadline (earlier ++ d ∷ later) ≢ stalled
dial-ends deadline [] later d e = ends_at deadline d later e
dial-ends deadline (x ∷ earlier) later d e =
    goes_on deadline x (earlier ++ d ∷ later) (dial-ends deadline earlier later d e)
