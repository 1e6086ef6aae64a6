-- ===== src/Lke/Cluster/Plan.antt =====
-- What the update of a cluster deletes.
use terraform_provider_linod.Prelude.{
  ℕ, String, Bool, true, false, Option, List, [], Result, ok, err,
}
use terraform_provider_linod.Prelude.Runs.{
  Every, Kept, Kept-holds, Kept-last, Kept-step, Kept-call, Kept-then, Kept-explained,
}
use terraform_provider_linod.Lke.{NodePoolSpec}
use terraform_provider_linod.Lke.Specs.{expand_linode_lke_node_pool_specs}
use terraform_provider_linod.Lke.ControlPlane.{ControlPlaneOptions}
use terraform_provider_linod.Lke.Reconcile.Accounting.{reconcile_exact}
use terraform_provider_linod.Lke.Cluster.{PoolNodes, Tier, Call, Client, Calls}
use terraform_provider_linod.Lke.Cluster.Update.{
  ClusterPlan, is_set, is_enterprise, has_changes, update_if, recycle_if, apply_plan, unless_gone,
  update_resource,
}
use terraform_provider_linod.Lke.Cluster.Order.{DeleteAllowed, recycle-Kept, apply-Kept}

-- The specs before and after the plan.
abbrev pub olds_of : ClusterPlan → List NodePoolSpec
olds_of plan = expand_linode_lke_node_pool_specs plan.old_pools false

abbrev pub news_of : ClusterPlan → List NodePoolSpec
news_of plan = expand_linode_lke_node_pool_specs plan.new_pools true

module _ (client : Client) (ticks : Calls → ℕ) (plan : ClusterPlan) where
  abbrev Allowed : Call → Calls → Type 0
  Allowed c h = DeleteAllowed plan.id (olds_of plan) (news_of plan) c h

  update_if-Kept :
      (b : Bool) (options : Option ControlPlaneOptions) (h : Calls)
      → Every Allowed h
      → Kept Allowed (update_if client ticks b plan options h)
  update_if-Kept true options h kept = Kept-explained _ _ _ (Kept-last _ _ _ (tt, kept))
  update_if-Kept false options h kept = Kept-last _ _ _ kept

  recycle_if-Kept :
      (b : Bool) (pools : List PoolNodes) (h : Calls)
      → Every Allowed h
      → Kept Allowed (recycle_if client ticks b plan.id pools h)
  recycle_if-Kept true pools h kept =
      recycle-Kept client ticks plan.id (olds_of plan) (news_of plan) pools h kept
  recycle_if-Kept false pools h kept = Kept-last _ _ _ kept

  plan-Kept :
      (t : Tier) (h : Calls) → Every Allowed h → Kept Allowed (apply_plan client ticks plan t h)
  plan-Kept t h kept = Kept-step _ _ _ _ _ kept (λ updates e k1.
      let exact = reconcile_exact (olds_of plan) (news_of plan) (is_enterprise t) e in
      apply-Kept client ticks plan.id (olds_of plan) (news_of plan) updates h exact.0 exact.1 k1)

  unless_gone-Kept :
      (is_not_found : String → Bool) (answer : Result String Tier) (h : Calls)
      → Every Allowed h
      → Kept Allowed (unless_gone client ticks is_not_found plan answer h)
  unless_gone-Kept is_not_found (ok t) h kept = plan-Kept t h kept
  unless_gone-Kept is_not_found (err e) h kept = Kept-last _ _ _ kept

  -- Wherever an update of a cluster fails and whatever the API answers, it deletes only pools that the
  -- reconciliation of the planned specs deletes, and each of them only after every pool that the
  -- reconciliation creates has been asked for.
  pub update_resource_deletes :
      (is_not_found : String → Bool)
      → Every
          (DeleteAllowed plan.id (olds_of plan) (news_of plan))
          (update_resource client ticks is_not_found plan []).1
  unfolding update_resource
  update_resource_deletes is_not_found = Kept-holds _ _ (
      Kept-call _ _ _ _ tt (λ options e k1.
        Kept-then _ _ _ (update_if-Kept (has_changes plan) options _ k1) (λ a h2 k2.
          Kept-step _ _ _ _ _ (tt, k2)
            (λ pools e3 k3.
              Kept-then _ _ _ (recycle_if-Kept (is_set plan.k8s_version) pools _ k3)
                (λ b h4 k4. unless_gone-Kept is_not_found _ _ (tt, k4))))))
