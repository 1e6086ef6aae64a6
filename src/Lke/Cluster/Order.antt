-- ===== src/Lke/Cluster/Order.antt =====
-- In which order an update of a cluster changes its pools.
use mathlib.Core.Path.{subst}
use terraform_provider_linod.Prelude.{
  ℕ, zero, suc, String, Bool, true, false, ◌≡◌, refl, sym, inl, inr, List, [], ◌∷◌, map, any, All,
  is_empty, ◌==◌, ==_refl, nat_eq, if◌then◌else◌,
}
use terraform_provider_linod.Prelude.Dict.{Dict}
use terraform_provider_linod.Prelude.Alls.{All-map, All-self}
use terraform_provider_linod.Prelude.Runs.{
  Made, Every, Kept, Kept-last, Kept-step, Kept-after, Kept-then, Kept-explained, Sure, Sure-done,
  Sure-step, Sure-both,
}
use terraform_provider_linod.Lke.{
  NodePoolSpec, NodePoolCreateOptions, NodePoolUpdateOptions, NodePoolUpdates,
}
use terraform_provider_linod.Lke.Reconcile.Accounting.{created, deleted, options_of}
use terraform_provider_linod.Lke.Cluster.{
  PoolNodes, Call, create_node_pool, delete_node_pool, Client, Calls, Run, Ack, any_not_ready,
  forget, poll_deleted, wait_for_nodes_deleted, wait_for_node_pool_ready, wait_for_pools_ready,
}
use terraform_provider_linod.Lke.Cluster.Update.{
  pool_ids, recycle_lke_cluster, send_updates, send_creates, send_deletes, apply_updates,
}

-- A pool is deleted only if the reconciliation of these specs deletes it, and once every pool that
-- the reconciliation creates has been created; other calls are not judged.
abbrev pub DeleteAllowed : ℕ → List NodePoolSpec → List NodePoolSpec → Call → Calls → Type 0
DeleteAllowed id olds news (delete_node_pool n p) h =
    (n ≡ id)
    × (any (λ s. s.id == p) (deleted olds news) ≡ true)
    × All (λ options. Made (λ c h'. c ≡ create_node_pool id options) h)
        (map options_of (created olds news))
DeleteAllowed id olds news _ h = Unit

module _ (client : Client) (ticks : Calls → ℕ) (id : ℕ) (olds news : List NodePoolSpec) where
  abbrev Allowed : Call → Calls → Type 0
  Allowed c h = DeleteAllowed id olds news c h

  choice-Kept :
      {A : Type 0} (b : Bool) (m n : Run A) (h : Calls)
      → Kept Allowed (m h)
      → Kept Allowed (n h)
      → Kept Allowed ((if b then m else n) h)
  choice-Kept true m n h first second = first
  choice-Kept false m n h first second = second

  poll-Kept :
      (n : ℕ) (m : Dict ℕ Ack) (h : Calls)
      → Every Allowed h
      → Kept Allowed (poll_deleted client n m h)
  unfolding poll_deleted
  poll-Kept zero m h kept = Kept-last _ _ _ kept
  poll-Kept (suc n) m h kept =
      Kept-step _ _ _ _ _ (tt, kept)
        (λ events e k1.
          choice-Kept (is_empty (forget events m)) _ _ _ (Kept-last _ _ _ k1)
            (poll-Kept n (forget events m) _ k1))

  ready-Kept :
      (n p : ℕ) (h : Calls)
      → Every Allowed h
      → Kept Allowed (wait_for_node_pool_ready client n id p h)
  unfolding wait_for_node_pool_ready
  ready-Kept zero p h kept = Kept-last _ _ _ kept
  ready-Kept (suc n) p h kept =
      Kept-step _ _ _ _ _ (tt, kept)
        (λ pool e k1.
          choice-Kept (any_not_ready pool.linodes) _ _ _ (ready-Kept n p _ k1) (Kept-last _ _ _ k1))

  pools-Kept :
      (message : String) (pools : List ℕ) (h : Calls)
      → Every Allowed h
      → Kept Allowed (wait_for_pools_ready client ticks id message pools h)
  unfolding wait_for_pools_ready
  pools-Kept message [] h kept = Kept-last _ _ _ kept
  pools-Kept message (p ∷ pools) h kept =
      Kept-then _ _ _ (Kept-explained _ _ _ (ready-Kept (ticks h) p h kept))
        (λ a h1 k1. pools-Kept message pools h1 k1)

  pub recycle-Kept :
      (pools : List PoolNodes) (h : Calls)
      → Every Allowed h
      → Kept Allowed (recycle_lke_cluster client ticks id pools h)
  unfolding recycle_lke_cluster wait_for_nodes_deleted
  recycle-Kept pools h kept =
      Kept-step _ _ _ _ _ (tt, kept)
        (λ a e k1.
          Kept-then _ _ _ (Kept-explained _ _ _ (poll-Kept _ _ _ k1))
            (λ b h2 k2. pools-Kept _ (pool_ids pools) h2 k2))

  updates-Kept :
      (to_update : Dict ℕ NodePoolUpdateOptions) (ids : List ℕ) (h : Calls)
      → Every Allowed h
      → Kept Allowed (send_updates client ticks id to_update ids h)
  unfolding send_updates
  updates-Kept [] ids h kept = Kept-last _ _ _ kept
  updates-Kept ((p, options) ∷ to_update) ids h kept =
      Kept-step _ _ _ _ _ (tt, kept) (λ a e k1. updates-Kept to_update _ _ k1)

  creates-Kept :
      (to_create : List NodePoolCreateOptions) (ids : List ℕ) (h : Calls)
      → Every Allowed h
      → Kept Allowed (send_creates client ticks id to_create ids h)
  unfolding send_creates
  creates-Kept [] ids h kept = Kept-last _ _ _ kept
  creates-Kept (options ∷ to_create) ids h kept =
      Kept-step _ _ _ _ _ (tt, kept) (λ pool e k1. creates-Kept to_create _ _ k1)

  -- Every new pool has been created.
  abbrev Created : NodePoolCreateOptions → Calls → Type 0
  Created options h = Made (λ c h'. c ≡ create_node_pool id options) h

  creates-Made :
      (P : Call → Calls → Type 0) (to_create : List NodePoolCreateOptions) (ids : List ℕ)
      (h : Calls)
      → Made P h
      → Sure (λ ids' h'. Made P h') (send_creates client ticks id to_create ids h)
  unfolding send_creates
  creates-Made P [] ids h made = Sure-done _ _ _ made
  creates-Made P (options ∷ to_create) ids h made =
      Sure-step _ _ _ _ _ (λ pool e. creates-Made P to_create _ _ (inr made))

  creates-Created :
      (to_create : List NodePoolCreateOptions) (ids : List ℕ) (h : Calls)
      → Sure
          (λ ids' h'. All (λ o. Created o h') to_create)
          (send_creates client ticks id to_create ids h)
  unfolding send_creates
  creates-Created [] ids h = Sure-done _ _ _ tt
  creates-Created (options ∷ to_create) ids h = Sure-step _ _ _ _ _ (λ pool e.
      Sure-both _ _ _ (creates-Made _ to_create _ _ (inl refl)) (creates-Created to_create _ _))

  deletes-Kept :
      (to_delete : List ℕ) (h : Calls)
      → All (λ p. any (λ s. s.id == p) (deleted olds news) ≡ true) to_delete
      → All (λ o. Created o h) (map options_of (created olds news))
      → Every Allowed h
      → Kept Allowed (send_deletes client ticks id to_delete h)
  unfolding send_deletes
  deletes-Kept [] h found made kept = Kept-last _ _ _ kept
  deletes-Kept (p ∷ to_delete) h found made kept =
      Kept-step _ _ _ _ _ ((refl, found.0, made), kept)
        (λ a e k1. deletes-Kept to_delete _ found.1 (All-map _ _ _ (λ o m. inr m) made) k1)

  All-ids :
      (all specs : List NodePoolSpec)
      → All (λ s. any (λ t. t.id == s.id) all ≡ true) specs
      → All (λ p. any (λ t. t.id == p) all ≡ true) (map (λ (s : NodePoolSpec). s.id) specs)
  All-ids all [] found = tt
  All-ids all (s ∷ specs) found = (found.0, All-ids all specs found.1)

  pub apply-Kept :
      (updates : NodePoolUpdates) (h : Calls)
      → updates.to_delete ≡ map (λ s. s.id) (deleted olds news)
      → updates.to_create ≡ map options_of (created olds news)
      → Every Allowed h
      → Kept Allowed (apply_updates client ticks id updates h)
  unfolding apply_updates
  apply-Kept updates h deletes creates kept =
      Kept-then _ _ _ (updates-Kept updates.to_update [] h kept) (λ ids h1 k1.
        Kept-after _ _ _ _ (creates-Kept updates.to_create ids h1 k1)
          (creates-Created updates.to_create ids h1)
          (λ ids' h2 k2 made.
            Kept-then _ _ _
              (deletes-Kept updates.to_delete h2
                (subst (All (λ p. any (λ s. s.id == p) (deleted olds news) ≡ true)) (sym deletes) (
                  All-ids (deleted olds news) (deleted olds news)
                    (All-self (λ s t. t.id == s.id) (deleted olds news) (λ s. ==_refl s.id))))
                (subst (All (λ o. Created o h2)) creates made) k2)
              (λ a h3 k3.
                Kept-then _ _ _ (pools-Kept _ ids' h3 k3) (λ b h4 k4. Kept-last _ _ _ k4))))
