-- ===== src/Lke/Cluster/Waits.antt =====
-- What the wait for ready pools waits for.
use mathlib.Core.Path.{subst}
use terraform_provider_linod.Prelude.{
  ℕ, zero, suc, String, Bool, true, false, ◌≡◌, refl, inl, inr, List, [], ◌∷◌, any, ok, ◌==◌,
  ==_iff, nat_eq, Bool-cases, arith, if◌then◌else◌,
}
use terraform_provider_linod.Prelude.Runs.{
  Made, Sure, Sure-done, Sure-fail, Sure-step, Sure-after, Sure-explained, Sure-any,
}
use terraform_provider_linod.Lke.Cluster.{
  PoolNodes, Call, get_node_pool, Calls, Client, Run, any_not_ready, wait_for_node_pool_ready,
  wait_for_pools_ready,
}

module _ (client : Client) where
  pub choice-Sure :
      {A : Type 0} (Q : A → Calls → Type 0) (b : Bool) (m n : Run A) (h : Calls)
      → (b ≡ true → Sure Q (m h))
      → (b ≡ false → Sure Q (n h))
      → Sure Q ((if b then m else n) h)
  choice-Sure Q true m n h first second = first refl
  choice-Sure Q false m n h first second = second refl

  -- A pool of which the API answered with no node that is not ready.
  abbrev pub SeenReady : ℕ → ℕ → Call → Calls → Type 0
  SeenReady cluster_id pool_id c h =
      (c ≡ get_node_pool cluster_id pool_id)
      × ((pool : PoolNodes) × (client.answers_pool c h ≡ ok pool)
          × (any_not_ready pool.linodes ≡ false))

  module _ (P : Call → Calls → Type 0) where
    ready-Made :
        (ticks id pool_id : ℕ) (h : Calls)
        → Made P h
        → Sure (λ a h'. Made P h') (wait_for_node_pool_ready client ticks id pool_id h)
    unfolding wait_for_node_pool_ready
    ready-Made zero id pool_id h made = Sure-fail _ _ _
    ready-Made (suc ticks) id pool_id h made = Sure-step _ _ _ _ _ (λ pool e.
        choice-Sure _ (any_not_ready pool.linodes) _ _ _
          (λ b. ready-Made ticks id pool_id _ (inr made)) (λ b. Sure-done _ _ _ (inr made)))

    pub pools-Made :
        (ticks : Calls → ℕ) (id : ℕ) (message : String) (pools : List ℕ) (h : Calls)
        → Made P h
        → Sure (λ a h'. Made P h') (wait_for_pools_ready client ticks id message pools h)
    unfolding wait_for_pools_ready
    pools-Made ticks id message [] h made = Sure-done _ _ _ made
    pools-Made ticks id message (p ∷ pools) h made =
        Sure-after _ _ _ _ (Sure-explained _ _ _ (ready-Made (ticks h) id p h made))
          (λ a h1 made1. pools-Made ticks id message pools h1 made1)

  ready-SeenReady :
      (ticks id pool_id : ℕ) (h : Calls)
      → Sure
          (λ a h'. Made (SeenReady id pool_id) h')
          (wait_for_node_pool_ready client ticks id pool_id h)
  unfolding wait_for_node_pool_ready
  ready-SeenReady zero id pool_id h = Sure-fail _ _ _
  ready-SeenReady (suc ticks) id pool_id h = Sure-step _ _ _ _ _ (λ pool e.
      choice-Sure _ (any_not_ready pool.linodes) _ _ _ (λ b. ready-SeenReady ticks id pool_id _)
        (λ b. Sure-done _ _ _ (inl (refl, (pool, e, b)))))

  -- A wait that succeeds has seen each of the pools ready.
  pub pools-SeenReady :
      (ticks : Calls → ℕ) (id : ℕ) (message : String) (pools : List ℕ) (p : ℕ) (h : Calls)
      → any (λ q. q == p) pools ≡ true
      → Sure
          (λ a h'. Made (SeenReady id p) h')
          (wait_for_pools_ready client ticks id message pools h)
  unfolding wait_for_pools_ready
  pools-SeenReady ticks id message [] p h here = cc
  pools-SeenReady ticks id message (q ∷ pools) p h here = elim (Bool-cases (q == p)) [
    | inl e ↦
        let same : q ≡ p = (==_iff q p).0 e in
        Sure-after _ (λ a h1. Made (SeenReady id p) h1) _ _
          (Sure-explained _ _ _ (
            subst
              (λ u.
                Sure (λ a h1. Made (SeenReady id u) h1)
                  (wait_for_node_pool_ready client (ticks h) id q h))
              same (ready-SeenReady (ticks h) id q h)))
          (λ a h1 made. pools-Made _ ticks id message pools h1 made)
    | inr e ↦
        Sure-after _ _ _ _ (Sure-any _)
          (λ a h1 u. pools-SeenReady ticks id message pools p h1 (ground (arith, e)))
  ]
