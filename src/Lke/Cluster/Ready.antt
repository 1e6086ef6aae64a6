-- ===== src/Lke/Cluster/Ready.antt =====
-- The pools that an update of a cluster changes are ready when it ends.
use terraform_provider_linod.Prelude.{
  ℕ, Bool, true, ◌||◌, ◌≡◌, refl, inl, inr, List, [], ◌∷◌, ◌++◌, any, ok, ◌==◌, nat_eq, arith,
  Bool-cases,
}
use terraform_provider_linod.Prelude.Dict.{Dict}
use terraform_provider_linod.Prelude.Runs.{
  Made, Sure, Sure-holds, Sure-done, Sure-step, Sure-after, Sure-any,
}
use terraform_provider_linod.Lke.{NodePoolCreateOptions, NodePoolUpdateOptions, NodePoolUpdates}
use terraform_provider_linod.Lke.Cluster.{Client, Calls}
use terraform_provider_linod.Lke.Cluster.Waits.{SeenReady, pools-SeenReady}
use terraform_provider_linod.Lke.Cluster.Update.{Outcome, send_updates, send_creates, apply_updates}

abbrev has : ℕ → List ℕ → Bool
has p ids = any (λ q. q == p) ids

has-append : (p : ℕ) (xs ys : List ℕ) → has p (xs ++ ys) ≡ (has p xs || has p ys)
has-append p [] ys = refl
has-append p (x ∷ xs) ys = ground (arith, has-append p xs ys)

module _ (client : Client) (ticks : Calls → ℕ) (id : ℕ) where
  abbrev HasId : ℕ → List ℕ → Calls → Type 0
  HasId p ids h = has p ids ≡ true

  updates-keep :
      (p : ℕ) (to_update : Dict ℕ NodePoolUpdateOptions) (ids : List ℕ) (h : Calls)
      → has p ids ≡ true
      → Sure (HasId p) (send_updates client ticks id to_update ids h)
  unfolding send_updates
  updates-keep p [] ids h here = Sure-done _ _ _ here
  updates-keep p ((q, options) ∷ to_update) ids h here =
      Sure-step _ _ _ _ _
        (λ a e. updates-keep p to_update _ _ (ground (arith, has-append p ids (q ∷ []), here)))

  updates-HasId :
      (p : ℕ) (to_update : Dict ℕ NodePoolUpdateOptions) (ids : List ℕ) (h : Calls)
      → any (λ e. e.0 == p) to_update ≡ true
      → Sure (HasId p) (send_updates client ticks id to_update ids h)
  unfolding send_updates
  updates-HasId p [] ids h here = cc
  updates-HasId p ((q, options) ∷ to_update) ids h here = Sure-step _ _ _ _ _ (λ a e.
      elim (Bool-cases (q == p)) [
        | inl same ↦ updates-keep p to_update _ _ (ground (arith, has-append p ids (q ∷ []), same))
        | inr other ↦ updates-HasId p to_update _ _ (ground (arith, other))
      ])

  creates-keep :
      (p : ℕ) (to_create : List NodePoolCreateOptions) (ids : List ℕ) (h : Calls)
      → has p ids ≡ true
      → Sure (HasId p) (send_creates client ticks id to_create ids h)
  unfolding send_creates
  creates-keep p [] ids h here = Sure-done _ _ _ here
  creates-keep p (options ∷ to_create) ids h here = Sure-step _ _ _ _ _ (λ pool e.
      creates-keep p to_create _ _ (ground (arith, has-append p ids (pool.id ∷ []), here)))

  -- If the updates of the pools of a cluster succeed, the API has answered, of every pool that was
  -- updated, with no node that is not ready.
  pub apply_updates_ready :
      (updates : NodePoolUpdates) (p : ℕ) (h h' : Calls) (o : Outcome)
      → any (λ e. e.0 == p) updates.to_update ≡ true
      → apply_updates client ticks id updates h ≡ (ok o, h')
      → Made (SeenReady client id p) h'
  unfolding apply_updates
  apply_updates_ready updates p h h' o here e =
      Sure-holds (λ a h1. Made (SeenReady client id p) h1)
        (Sure-after _ _ _ _ (updates-HasId p updates.to_update [] h here) (λ ids h1 has1.
          Sure-after _ _ _ _ (creates-keep p updates.to_create ids h1 has1) (λ ids' h2 has2.
            Sure-after _ _ _ _ (Sure-any _) (λ a h3 u.
              Sure-after _ _ _ _ (pools-SeenReady client ticks id _ ids' p h3 has2)
                (λ b h4 made. Sure-done _ _ _ made)))))
        e
