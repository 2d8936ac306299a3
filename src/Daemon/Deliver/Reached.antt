-- ===== src/Daemon/Deliver/Reached.antt =====
-- `deliver` of src/daemon.rs: the connection on which a message went.
use agent2agent.Base.{
  ℕ, ◌≡◌, refl, sym, ap, ◌∙◌, ◌⊎◌, inl, inr, Option, none, some, List, [], ◌∷◌, arith, nat_eq,
  text_eq, Bool-cases, Option-cases, ok, err, Error,
}
use agent2agent.Config.Iroh.{Iroh}
use agent2agent.Config.Peers.{EndpointAddr}
use agent2agent.Daemon.Deliver.Accepted.{IsAcknowledged, deliver_once-IsAcknowledged}
use agent2agent.Daemon.{Connections}
use agent2agent.Daemon.Deliver.{
  deliver_once, Attempt, Codecs, Pending, stalled, finished, Round, returned, failed, connection_to,
  forget_connection, remember_connection, cached_connection, connected, connection_for, exchanged,
  round_on, round, attempts, deliver_once,
}
use agent2agent.Daemon.Deliver.Reconnects.{forgotten}
use agent2agent.Wire.{WireMsg}

module _ (I : Iroh) (C : Codecs) where
  open I use {EndpointId, same}

  remembered_for :
      (id : EndpointId) (c : ℕ) (conns : Connections I)
      → connection_to I id (remember_connection I id c conns) ≡ some c
  unfolding connection_to remember_connection
  remembered_for id c conns =
      elim (same id id)
        as (λ d.
          elim d as (λ _. Option ℕ) [
            | yes _ ↦ some c
            | no _ ↦ connection_to I id (forget_connection I id conns)
          ]
          ≡ some c) [ yes p ↦ refl | no n ↦ absurd (n refl) ]

  connected-Dialled :
      (id : EndpointId) (p : Pending ℕ) (conns : Connections I) (c : ℕ) (kept : Connections I)
      → connected I id p conns ≡ (finished (ok c), kept)
      → (p ≡ finished (ok c)) × (kept ≡ remember_connection I id c conns)
  unfolding connected
  connected-Dialled id stalled conns c kept h = cc
  connected-Dialled id (finished (err e)) conns c kept h = cc
  connected-Dialled id (finished (ok d)) conns c kept h =
      let same_ : d ≡ c = cc in
      (
        ap (λ c. finished (ok c)) same_,
        sym (ap (λ (r : Pending ℕ × Connections I). r.1) h)
            ∙ ap (λ c. remember_connection I id c conns) same_,
      )

  -- A connection that is kept for the id of the address, and that was so already or that dialling the
  -- address gave.
  abbrev pub IsOver : Attempt I → EndpointAddr I → Connections I → Connections I → ℕ → Type 0
  IsOver net addr before kept c =
      (connection_to I addr.id kept ≡ some c)
      × ((connection_to I addr.id before ≡ some c) ⊎ (net.connect addr ≡ finished (ok c)))

  -- In one of the attempts the message went over such a connection, and was acknowledged on it.
  abbrev pub WentOver :
      List (Attempt I) → EndpointAddr I → Connections I → Connections I → WireMsg → Type 0
  WentOver [] addr before kept m = ⊥
  WentOver (net ∷ nets) addr before kept m =
      ((c : ℕ) × IsOver net addr before kept c × IsAcknowledged C net c m)
      ⊎ WentOver nets addr before kept m

  -- Nothing was kept for the address before: so it went over a connection that was dialled.
  WentOver-before :
      (nets : List (Attempt I)) (addr : EndpointAddr I) (before gone kept : Connections I)
      (m : WireMsg)
      → connection_to I addr.id gone ≡ none
      → WentOver nets addr gone kept m
      → WentOver nets addr before kept m
  WentOver-before [] addr before gone kept m none_ h = h
  WentOver-before (net ∷ nets) addr before gone kept m none_ (inl (c, over, acked)) =
      inl (c, (over.0, elim over.1 [ inl cached ↦ cc | inr dialled ↦ inr dialled ]), acked)
  WentOver-before (net ∷ nets) addr before gone kept m none_ (inr h) =
      inr (WentOver-before nets addr before gone kept m none_ h)

  dialled-IsOver :
      (net : Attempt I) (addr : EndpointAddr I) (before conns : Connections I) (c : ℕ)
      (kept : Connections I)
      → connected I addr.id (net.connect addr) conns ≡ (finished (ok c), kept)
      → IsOver net addr before kept c
  dialled-IsOver net addr before conns c kept h =
      let (dialled, is) = connected-Dialled addr.id (net.connect addr) conns c kept h in
      (rw is (remembered_for addr.id c conns), inr dialled)

  connection_for-IsOver :
      (net : Attempt I) (addr : EndpointAddr I) (conns : Connections I) (c : ℕ)
      (kept : Connections I)
      → connection_for I net addr conns ≡ (finished (ok c), kept)
      → IsOver net addr conns kept c
  unfolding connection_for cached_connection
  connection_for-IsOver net addr conns c kept h =
      elim (Option-cases (connection_to I addr.id conns)) [
        | inl none_ ↦
            let k : connection_for I net addr conns ≡ connected I addr.id (net.connect addr) conns =
              ground (arith, none_) in
            dialled-IsOver net addr conns conns c kept (sym k ∙ h)
        | inr found ↦ elim (Bool-cases (net.is_closed found.0)) [
          | inl closed ↦
              let k : connection_for I net addr conns
                  ≡ connected I addr.id (net.connect addr) (forget_connection I addr.id conns) =
                ground (arith, found.1, closed) in
              dialled-IsOver net addr conns (forget_connection I addr.id conns) c kept (sym k ∙ h)
          | inr open_ ↦
              let k : connection_for I net addr conns ≡ (finished (ok found.0), conns) =
                ground (arith, found.1, open_) in
              let both : ◌≡◌ {A = Pending ℕ × Connections I} (finished (ok found.0), conns)
                  (finished (ok c), kept) =
                sym k ∙ h in
              let same_ : found.0 ≡ c = cc in
              let here : connection_to I addr.id conns ≡ some c =
                found.1 ∙ ap (λ c. some c) same_ in
              let kept_ = ap (λ (r : Pending ℕ × Connections I). r.1) both in
              (ap (λ k. connection_to I addr.id k) (sym kept_) ∙ here, inl here)
        ]
      ]

  exchanged-ok :
      (id : EndpointId) (p : Pending (Unit {0})) (conns : Connections I)
      → (exchanged I id p conns).0 ≡ returned (finished (ok tt))
      → (p ≡ finished (ok tt)) × ((exchanged I id p conns).1 ≡ conns)
  unfolding exchanged
  exchanged-ok id stalled conns h = cc
  exchanged-ok id (finished (ok u)) conns h = (refl, refl)
  exchanged-ok id (finished (err e)) conns h = cc

  exchanged-forgotten :
      (id : EndpointId) (p : Pending (Unit {0})) (conns : Connections I) (e : Error)
      → (exchanged I id p conns).0 ≡ failed e
      → connection_to I id (exchanged I id p conns).1 ≡ none
  unfolding exchanged
  exchanged-forgotten id stalled conns e h = cc
  exchanged-forgotten id (finished (ok u)) conns e h = cc
  exchanged-forgotten id (finished (err x)) conns e h = forgotten I C id conns

  module _ (net : Attempt I) (addr : EndpointAddr I) (m : WireMsg) (before : Connections I) where
    -- What a round that succeeds has done.
    abbrev Took : Connections I → Type 0
    Took kept = (c : ℕ) × IsOver net addr before kept c × IsAcknowledged C net c m

    round_on-Took :
        (p : Pending ℕ × Connections I)
        → ((c : ℕ) → p.0 ≡ finished (ok c) → IsOver net addr before p.1 c)
        → (round_on I C net addr m p).0 ≡ returned (finished (ok tt))
        → Took (round_on I C net addr m p).1
    unfolding round_on
    round_on-Took (stalled, conns) over h = cc
    round_on-Took (finished (err e), conns) over h = cc
    round_on-Took (finished (ok c), conns) over h =
        let (done_, kept) = exchanged-ok addr.id (deliver_once I C net c m) conns h in
        (c, rw kept (over c refl), deliver_once-IsAcknowledged I C net c m done_)

    round_on-forgotten :
        (p : Pending ℕ × Connections I) (e : Error)
        → (round_on I C net addr m p).0 ≡ failed e
        → connection_to I addr.id (round_on I C net addr m p).1 ≡ none
    unfolding round_on
    round_on-forgotten (stalled, conns) e h = cc
    round_on-forgotten (finished (err x), conns) e h = cc
    round_on-forgotten (finished (ok c), conns) e h =
        exchanged-forgotten addr.id (deliver_once I C net c m) conns e h

  abbrev tried :
      List (Attempt I)
      → EndpointAddr I
      → WireMsg
      → Round I × Connections I
      → Pending (Unit {0}) × Connections I
  tried nets addr m r = elim r.0 as (λ _. Pending (Unit {0}) × Connections I) [
    | returned result ↦ (result, r.1)
    | failed e ↦ attempts I C nets e addr m r.1
  ]

  tried-WentOver :
      (net : Attempt I) (nets : List (Attempt I)) (addr : EndpointAddr I) (m : WireMsg)
      (before : Connections I) (r : Round I × Connections I)
      → (r.0 ≡ returned (finished (ok tt)) → Took net addr m before r.1)
      → ((e : Error) → r.0 ≡ failed e → connection_to I addr.id r.1 ≡ none)
      → ((e : Error) (kept : Connections I)
          → (attempts I C nets e addr m kept).0 ≡ finished (ok tt)
          → WentOver nets addr kept (attempts I C nets e addr m kept).1 m)
      → (tried nets addr m r).0 ≡ finished (ok tt)
      → WentOver (net ∷ nets) addr before (tried nets addr m r).1 m
  tried-WentOver net nets addr m before (returned p, kept) first gone later h =
      inl (first (ap returned h))
  tried-WentOver net nets addr m before (failed e, kept) first gone later h =
      inr (WentOver-before nets addr before kept _ m (gone e refl) (later e kept h))

  -- A delivery that succeeds went, in one of the attempts, over a connection that is kept for the id
  -- of the address, one that was kept for it before or that dialling the address gave, and it was
  -- acknowledged on that connection.
  pub attempts-WentOver :
      (nets : List (Attempt I)) (e : Error) (addr : EndpointAddr I) (m : WireMsg)
      (conns : Connections I)
      → (attempts I C nets e addr m conns).0 ≡ finished (ok tt)
      → WentOver nets addr conns (attempts I C nets e addr m conns).1 m
  unfolding attempts round
  attempts-WentOver [] e addr m conns h = cc
  attempts-WentOver (net ∷ nets) e addr m conns h =
      let p = connection_for I net addr conns in
      let over : (c : ℕ) → p.0 ≡ finished (ok c) → IsOver net addr conns p.1 c =
        λ c is. connection_for-IsOver net addr conns c p.1 (λ i. (is i, p.1)) in
      tried-WentOver net nets addr m conns (round I C net addr m conns)
        (round_on-Took net addr m conns p over) (λ e. round_on-forgotten net addr m conns p e)
        (λ e' kept. attempts-WentOver nets e' addr m kept) h
