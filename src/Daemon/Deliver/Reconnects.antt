-- ===== src/Daemon/Deliver/Reconnects.antt =====
-- `deliver` of src/daemon.rs where a cached connection has gone stale.
use agent2agent.Daemon.{Connections}
use agent2agent.Config.Iroh.{Iroh}
use agent2agent.Config.Peers.{EndpointAddr}
use agent2agent.Base.{
  ℕ, ◌≡◌, refl, ap, ◌∙◌, false, none, some, List, [], ◌∷◌, arith, nat_eq, text_eq, ok, err, Error,
}
use agent2agent.Daemon.Deliver.{
  connected, forget_connection, remember_connection, cached_connection, connection_to, returned,
  failed, connection_for, round, Round, attempts, exchanged, round_on, Attempt, Codecs, Pending,
  finished, deliver_once,
}
use agent2agent.Wire.{WireMsg}

module _ (I : Iroh) (C : Codecs) where
  open I use {EndpointId, same}

  -- Nothing is cached for a peer that was forgotten.
  pub forgotten :
      (id : EndpointId) (conns : Connections I)
      → connection_to I id (forget_connection I id conns) ≡ none
  unfolding connection_to forget_connection
  forgotten id [] = refl
  forgotten id (c ∷ conns) =
      elim (same c.0 id)
        as (λ d.
          connection_to I id (elim d as (λ _. Connections I) [
            | yes _ ↦ forget_connection I id conns
            | no _ ↦ c ∷ forget_connection I id conns
          ])
          ≡ none) [ yes p ↦ forgotten id conns | no n ↦ ground (arith, forgotten id conns) ]

  lost_round :
      (net : Attempt I) (addr : EndpointAddr I) (m : WireMsg) (conns : Connections I) (c : ℕ)
      (e : Error)
      → connection_to I addr.id conns ≡ some c
      → net.is_closed c ≡ false
      → deliver_once I C net c m ≡ finished (err e)
      → round I C net addr m conns ≡ (failed e, forget_connection I addr.id conns)
  unfolding round round_on exchanged connection_for cached_connection
  lost_round net addr m conns c e cached open_ lost = ground (arith, cached, open_, lost)

  fresh_round :
      (net : Attempt I) (addr : EndpointAddr I) (m : WireMsg) (conns : Connections I) (c : ℕ)
      → connection_to I addr.id conns ≡ none
      → net.connect addr ≡ finished (ok c)
      → deliver_once I C net c m ≡ finished (ok tt)
      → round I C net addr m conns
        ≡ (returned (finished (ok tt)), remember_connection I addr.id c conns)
  unfolding round round_on exchanged connection_for cached_connection connected
  fresh_round net addr m conns c none_ new acked = ground (arith, none_, new, acked)

  abbrev pub next :
      List (Attempt I)
      → EndpointAddr I
      → WireMsg
      → Round I × Connections I
      → Pending (Unit {0}) × Connections I
  next nets addr m (returned p, kept) = (p, kept)
  next nets addr m (failed e, kept) = attempts I C nets e addr m kept

  split_round :
      (nets : List (Attempt I)) (addr : EndpointAddr I) (m : WireMsg) (r : Round I × Connections I)
      → (elim r.0 as (λ _. Pending (Unit {0}) × Connections I) [
        | returned result ↦ (result, r.1)
        | failed e ↦ attempts I C nets e addr m r.1
      ])
        ≡ next nets addr m r
  split_round nets addr m (returned p, kept) = refl
  split_round nets addr m (failed e, kept) = refl

  step :
      (net : Attempt I) (nets : List (Attempt I)) (e : Error) (addr : EndpointAddr I) (m : WireMsg)
      (conns : Connections I) {r : Round I × Connections I}
      → round I C net addr m conns ≡ r
      → attempts I C (net ∷ nets) e addr m conns ≡ next nets addr m r
  unfolding attempts
  step net nets e addr m conns a =
      split_round nets addr m (round I C net addr m conns) ∙ ap (λ q. next nets addr m q) a

  -- A cached connection on which the exchange fails costs a new connection and no error: where the
  -- second attempt connects and is acknowledged, the delivery succeeds, and what is cached for the
  -- peer is then the new connection.
  pub deliver-reconnects :
      (first second : Attempt I) (e e' : Error) (addr : EndpointAddr I) (m : WireMsg)
      (conns : Connections I) (stale fresh : ℕ)
      → connection_to I addr.id conns ≡ some stale
      → first.is_closed stale ≡ false
      → deliver_once I C first stale m ≡ finished (err e')
      → second.connect addr ≡ finished (ok fresh)
      → deliver_once I C second fresh m ≡ finished (ok tt)
      → attempts I C (first ∷ second ∷ []) e addr m conns ≡ (
        finished (ok tt),
        remember_connection I addr.id fresh (forget_connection I addr.id conns),
      )
  deliver-reconnects first second e e' addr m conns stale fresh cached open_ lost new acked =
      let a = lost_round first addr m conns stale e' cached open_ lost in
      let b =
        fresh_round second addr m (forget_connection I addr.id conns) fresh
          (forgotten addr.id conns) new acked in
      step (first) (second ∷ []) e addr m conns a
      ∙ step second [] e' addr m (forget_connection I addr.id conns) b
