-- ===== src/Lke/Cluster/Idle.antt =====
-- An update of a cluster with nothing to change.
use mathlib.Core.Path.{subst}
use terraform_provider_linod.Prelude.{ℕ, String, Bool, false, ◌≡◌, sym, [], ◌∷◌, Result, ok, err}
use terraform_provider_linod.Prelude.Runs.{
  Every, Kept, Kept-holds, Kept-last, Kept-step, Kept-call, Kept-then, after, explained,
}
use terraform_provider_linod.Lke.Reconcile.{no_updates, reconcile_lke_node_pool_specs}
use terraform_provider_linod.Lke.Reconcile.Outcome.{reconcile_unchanged}
use terraform_provider_linod.Lke.Cluster.{
  Tier, Call, get_cluster, list_node_pools, Client, Calls, wait_for_pools_ready,
}
use terraform_provider_linod.Lke.Cluster.Update.{
  ClusterPlan, has_changes, is_set, is_enterprise, send_updates, send_creates, send_deletes,
  apply_updates, update_if, recycle_if, apply_plan, unless_gone, update_resource,
}
use terraform_provider_linod.Lke.Cluster.Plan.{olds_of, news_of}

-- The calls that change nothing.
abbrev pub IsRead : Call → Calls → Type 0
IsRead (get_cluster n) h = Unit
IsRead (list_node_pools n) h = Unit
IsRead _ h = ⊥

module _ (client : Client) (ticks : Calls → ℕ) (plan : ClusterPlan) where
  idle-Kept :
      (h : Calls) → Every IsRead h → Kept IsRead (apply_updates client ticks plan.id no_updates h)
  unfolding apply_updates send_updates send_creates send_deletes wait_for_pools_ready after
      explained
  idle-Kept h kept = Kept-last _ _ _ kept

  plan-Kept :
      (t : Tier) (h : Calls)
      → olds_of plan ≡ news_of plan
      → Every IsRead h
      → Kept IsRead (apply_plan client ticks plan t h)
  plan-Kept t h same kept = Kept-step _ _ _ _ _ kept (λ updates e k1.
      let unchanged : reconcile_lke_node_pool_specs (olds_of plan) (news_of plan) (is_enterprise t)
          ≡ ok no_updates =
        subst
          (λ news.
            reconcile_lke_node_pool_specs (olds_of plan) news (is_enterprise t) ≡ ok no_updates)
          same (reconcile_unchanged (olds_of plan) (is_enterprise t)) in
      let nothing : no_updates ≡ updates = cc in
      subst (λ u. Kept IsRead (apply_updates client ticks plan.id u h)) nothing (idle-Kept h k1))

  gone-Kept :
      (is_not_found : String → Bool) (answer : Result String Tier) (h : Calls)
      → olds_of plan ≡ news_of plan
      → Every IsRead h
      → Kept IsRead (unless_gone client ticks is_not_found plan answer h)
  gone-Kept is_not_found (ok t) h same kept = plan-Kept t h same kept
  gone-Kept is_not_found (err e) h same kept = Kept-last _ _ _ kept

  -- An update of a cluster whose plan changes neither a field nor a spec of a pool makes no call that
  -- changes anything, whatever the API answers.
  pub update_resource_idle :
      (is_not_found : String → Bool)
      → has_changes plan ≡ false
      → is_set plan.k8s_version ≡ false
      → olds_of plan ≡ news_of plan
      → Every IsRead (update_resource client ticks is_not_found plan []).1
  unfolding update_resource
  update_resource_idle is_not_found unchanged same_version same = Kept-holds _ _ (
      Kept-call _ _ _ _ tt (λ options e k1.
        Kept-then _ _ _
          (subst (λ b. Kept IsRead (update_if client ticks b plan options [])) (sym unchanged)
            (Kept-last _ _ _ k1))
          (λ a h2 k2.
            Kept-step _ _ _ _ _ (tt, k2)
              (λ pools e3 k3.
                Kept-then _ _ _
                  (subst
                    (λ b.
                      Kept IsRead
                        (recycle_if client ticks b plan.id pools (list_node_pools plan.id ∷ h2)))
                    (sym same_version) (Kept-last _ _ _ k3))
                  (λ b h4 k4. gone-Kept is_not_found _ _ same (tt, k4))))))
