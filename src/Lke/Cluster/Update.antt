-- ===== src/Lke/Cluster/Update.antt =====
-- recycleLKECluster of linode/lke/cluster.go, and updateResource of linode/lke/resource.go up to its
-- last call, which reads the cluster into the state.
use terraform_provider_linod.Prelude.{
  ℕ, String, Bool, true, false, ◌||◌, Option, none, some, List, [], ◌∷◌, ◌++◌, map, Result, ok, err,
  if◌then◌else◌,
}
use terraform_provider_linod.Prelude.Dict.{Dict}
use terraform_provider_linod.Prelude.Runs.{done, lift, ◌>>=◌, ◌>>◌, or_fail}
use terraform_provider_linod.Lke.{NodePoolCreateOptions, NodePoolUpdateOptions, NodePoolUpdates}
use terraform_provider_linod.Lke.Specs.{
  Item, PoolBlock, expand_string_list, expand_linode_lke_node_pool_specs,
}
use terraform_provider_linod.Lke.ControlPlane.{
  ControlPlaneBlock, ControlPlaneOptions, expand_control_plane_options,
}
use terraform_provider_linod.Lke.Reconcile.{reconcile_lke_node_pool_specs}
use terraform_provider_linod.Lke.Cluster.{
  PoolNodes, Tier, standard, enterprise, tier, ClusterUpdateOptions, update_cluster, get_cluster,
  recycle_nodes, list_node_pools, update_node_pool, create_node_pool, delete_node_pool, Client,
  Calls, Run, Ack, act, ask_pool, all_nodes, wait_for_nodes_deleted, wait_for_pools_ready,
}

-- The plan of an update: a changed field holds its new value.
pub record ClusterPlan : Type 0 where
  pub id : ℕ
  pub label : Option String
  pub k8s_version : Option String
  pub tags : Option (List Item)
  pub control_plane_changed : Bool
  pub control_plane : List ControlPlaneBlock
  pub old_pools : List PoolBlock
  pub new_pools : List PoolBlock

-- A cluster that is gone is taken out of the state.
pub data Outcome : Type 0 where
  updated gone : Outcome

abbrev pub is_set {ℓ} : {A : Type ℓ} → Option A → Bool
is_set none = false
is_set (some a) = true

abbrev text_or_empty : Option String → String
text_or_empty none = ""
text_or_empty (some s) = s

abbrev expand_tags : Option (List Item) → Option (List String)
expand_tags none = none
expand_tags (some tags) = some (expand_string_list tags)

abbrev pub first_plane : List ControlPlaneBlock → Result String (Option ControlPlaneOptions)
first_plane [] = ok none
first_plane (block ∷ blocks) = elim (expand_control_plane_options block) [
  | ok options ↦ ok (some options)
  | err e ↦ err e
]

abbrev pub cluster_options : ClusterPlan → Option ControlPlaneOptions → ClusterUpdateOptions
cluster_options plan control_plane = record {
  label = text_or_empty plan.label;
  k8s_version = text_or_empty plan.k8s_version;
  control_plane = control_plane;
  tags = expand_tags plan.tags;
}

abbrev pub has_changes : ClusterPlan → Bool
has_changes plan =
    is_set plan.label || is_set plan.tags || is_set plan.k8s_version || plan.control_plane_changed

abbrev pub is_enterprise : Tier → Bool
is_enterprise enterprise = true
is_enterprise standard = false
is_enterprise (tier s) = false

abbrev pub pool_ids : List PoolNodes → List ℕ
pool_ids pools = map (λ (p : PoolNodes). p.id) pools

-- `ticks` is how many ticks a wait has that begins after these calls.
module _ (client : Client) (ticks : Calls → ℕ) where
  abbrev pub ask_pools : ℕ → Run (List PoolNodes)
  ask_pools id h = (client.answers_pools (list_node_pools id) h, list_node_pools id ∷ h)

  unfoldable pub recycle_lke_cluster : ℕ → List PoolNodes → Run Ack
  recycle_lke_cluster id pools = do
    or_fail "failed to recycle LKE Cluster (" (act client (recycle_nodes id))
    or_fail "failed to wait for old nodes to be recycled: "
        (λ h. wait_for_nodes_deleted client (ticks h) (all_nodes pools) h)
    wait_for_pools_ready client ticks id "failed to wait for pool " (pool_ids pools)

  unfoldable pub send_updates : ℕ → Dict ℕ NodePoolUpdateOptions → List ℕ → Run (List ℕ)
  send_updates id [] updated_ids = done updated_ids
  send_updates id ((pool_id, options) ∷ to_update) updated_ids = do
    or_fail "failed to update LKE Cluster " (act client (update_node_pool id pool_id options))
    send_updates id to_update (updated_ids ++ pool_id ∷ [])

  unfoldable pub send_creates : ℕ → List NodePoolCreateOptions → List ℕ → Run (List ℕ)
  send_creates id [] updated_ids = done updated_ids
  send_creates id (options ∷ to_create) updated_ids = do
    pool ← or_fail "failed to create LKE Cluster " (ask_pool client (create_node_pool id options))
    send_creates id to_create (updated_ids ++ pool.id ∷ [])

  unfoldable pub send_deletes : ℕ → List ℕ → Run Ack
  send_deletes id [] = done tt
  send_deletes id (pool_id ∷ to_delete) = do
    or_fail "failed to delete LKE Cluster " (act client (delete_node_pool id pool_id))
    send_deletes id to_delete

  -- The three loops over what was reconciled, and the wait for what they changed.
  unfoldable pub apply_updates : ℕ → NodePoolUpdates → Run Outcome
  apply_updates id updates = do
    updated_ids ← send_updates id updates.to_update []
    ready_ids ← send_creates id updates.to_create updated_ids
    send_deletes id updates.to_delete
    wait_for_pools_ready client ticks id "failed to wait for LKE Cluster " ready_ids
    done updated

  abbrev pub update_if : Bool → ClusterPlan → Option ControlPlaneOptions → Run Ack
  update_if true plan control_plane =
      or_fail "failed to update LKE Cluster "
        (act client (update_cluster plan.id (cluster_options plan control_plane)))
  update_if false plan control_plane = done tt

  abbrev pub recycle_if : Bool → ℕ → List PoolNodes → Run Ack
  recycle_if true id pools = recycle_lke_cluster id pools
  recycle_if false id pools = done tt

  abbrev pub apply_plan : ClusterPlan → Tier → Run Outcome
  apply_plan plan t = do
    updates ← or_fail "Failed to reconcile LKE cluster node pools: " (
        lift (
          reconcile_lke_node_pool_specs (expand_linode_lke_node_pool_specs plan.old_pools false)
            (expand_linode_lke_node_pool_specs plan.new_pools true) (is_enterprise t)))
    apply_updates plan.id updates

  -- `is_not_found` tells linodego's errors of a missing cluster.
  abbrev pub unless_gone : (String → Bool) → ClusterPlan → Result String Tier → Run Outcome
  unless_gone is_not_found plan (ok t) h = apply_plan plan t h
  unless_gone is_not_found plan (err e) h =
      (if is_not_found e then ok gone else err "failed to get LKE cluster ", h)

  abbrev pub reconcile_and_apply : (String → Bool) → ClusterPlan → Run Outcome
  reconcile_and_apply is_not_found plan h =
      unless_gone is_not_found plan (client.answers_tier (get_cluster plan.id) h)
        (get_cluster plan.id ∷ h)

  unfoldable pub update_resource : (String → Bool) → ClusterPlan → Run Outcome
  update_resource is_not_found plan = do
    control_plane ← lift (first_plane plan.control_plane)
    update_if (has_changes plan) plan control_plane
    pools ← or_fail "failed to get Pools for LKE Cluster " (ask_pools plan.id)
    recycle_if (is_set plan.k8s_version) plan.id pools
    reconcile_and_apply is_not_found plan
