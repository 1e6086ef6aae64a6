-- ===== src/Lke/Cluster.antt =====
-- The calls of the API that an update of a cluster makes: waitForNodesDeleted, recycleLKECluster and
-- waitForLKEKubeConfig of linode/lke/cluster.go, WaitForNodePoolReady of linode/lkenodepool/nodepool.go,
-- and updateResource of linode/lke/resource.go in the children.
pub mod Waits
pub mod Deleted
pub mod Update
pub mod Order
pub mod Idle
pub mod Plan
pub mod Ready
mod Tests
use terraform_provider_linod.Prelude.{
  ℕ, zero, suc, String, Bool, true, false, Option, none, some, List, [], ◌∷◌, ◌++◌, is_empty,
  Result, ok, err, nat_eq, if◌then◌else◌,
}
use terraform_provider_linod.Prelude.Dict.{Dict, put, delete}
use terraform_provider_linod.Prelude.Runs.{Runs, done, fail, lift, ◌>>=◌, ◌>>◌, or_fail}
use terraform_provider_linod.Lke.ControlPlane.{ControlPlaneOptions}
use terraform_provider_linod.Lke.{NodePoolCreateOptions, NodePoolUpdateOptions}

pub data NodeStatus : Type 0 where
  ready not_ready : NodeStatus
  other : String → NodeStatus

pub record Node : Type 0 where
  pub instance_id : ℕ
  pub status : NodeStatus

-- `LKENodePool`, as far as the waits read it.
pub record PoolNodes : Type 0 where
  pub id : ℕ
  pub linodes : List Node

pub data Tier : Type 0 where
  standard enterprise : Tier
  tier : String → Tier

-- The entity of an event: a number, of which the code takes the integer part, or something else.
pub data EntityId : Type 0 where
  number : ℕ → EntityId
  no_number : EntityId

pub record ClusterUpdateOptions : Type 0 where
  pub label : String
  pub k8s_version : String
  pub control_plane : Option ControlPlaneOptions
  pub tags : Option (List String)

pub data Call : Type 0 where
  update_cluster : ℕ → ClusterUpdateOptions → Call
  get_cluster : ℕ → Call
  get_kubeconfig : ℕ → Call
  recycle_nodes : ℕ → Call
  list_events : Call
  list_node_pools : ℕ → Call
  get_node_pool : ℕ → ℕ → Call
  update_node_pool : ℕ → ℕ → NodePoolUpdateOptions → Call
  create_node_pool : ℕ → NodePoolCreateOptions → Call
  delete_node_pool : ℕ → ℕ → Call

abbrev pub Ack : Type 0
Ack = Unit

abbrev pub Calls : Type 0
Calls = List Call

-- The client answers a call by what was called before it. The events are those of deleted instances.
pub record Client : Type 0 where
  pub acts : Call → Calls → Result String Ack
  pub answers_tier : Call → Calls → Result String Tier
  pub answers_events : Call → Calls → Result String (List EntityId)
  pub answers_pool : Call → Calls → Result String PoolNodes
  pub answers_pools : Call → Calls → Result String (List PoolNodes)

abbrev pub Run : Type 0 → Type 0
Run = Runs Call

-- The nodes that still stand, as the keys of a map.
unfoldable pub as_set : List Node → Dict ℕ Ack → Dict ℕ Ack
as_set [] remaining_nodes = remaining_nodes
as_set (node ∷ nodes) remaining_nodes = as_set nodes (put node.instance_id tt remaining_nodes)

-- `delete` of a key that is not there does nothing.
unfoldable pub forget : List EntityId → Dict ℕ Ack → Dict ℕ Ack
forget [] remaining_nodes = remaining_nodes
forget (number inst_id ∷ events) remaining_nodes = forget events (delete inst_id remaining_nodes)
forget (no_number ∷ events) remaining_nodes = forget events remaining_nodes

abbrev pub any_not_ready : List Node → Bool
any_not_ready [] = false
any_not_ready (node ∷ linodes) =
    let rest = any_not_ready linodes in
    elim node.status [ not_ready ↦ true | ready ↦ rest | other s ↦ rest ]

unfoldable pub all_nodes : List PoolNodes → List Node
all_nodes [] = []
all_nodes (pool ∷ pools) = pool.linodes ++ all_nodes pools

module _ (client : Client) where
  abbrev pub act : Call → Run Ack
  act c h = (client.acts c h, c ∷ h)

  abbrev pub ask_events : Run (List EntityId)
  ask_events h = (client.answers_events list_events h, list_events ∷ h)

  abbrev pub ask_pool : Call → Run PoolNodes
  ask_pool c h = (client.answers_pool c h, c ∷ h)

  -- A wait polls at each tick, of which the context allows so many.
  unfoldable pub poll_deleted : ℕ → Dict ℕ Ack → Run Ack
  poll_deleted zero remaining_nodes = fail "failed to wait for node deletion: "
  poll_deleted (suc ticks) remaining_nodes = do
    events ← or_fail "failed to list events: " ask_events
    let left = forget events remaining_nodes
    let again = poll_deleted ticks left
    if is_empty left then done tt else again

  unfoldable pub wait_for_nodes_deleted : ℕ → List Node → Run Ack
  wait_for_nodes_deleted ticks nodes = poll_deleted ticks (as_set nodes [])

  unfoldable pub wait_for_node_pool_ready : ℕ → ℕ → ℕ → Run PoolNodes
  wait_for_node_pool_ready zero cluster_id pool_id = fail "timed out waiting for LKE Cluster ("
  wait_for_node_pool_ready (suc ticks) cluster_id pool_id = do
    pool ← or_fail "failed to get LKE Cluster (" (ask_pool (get_node_pool cluster_id pool_id))
    let again = wait_for_node_pool_ready ticks cluster_id pool_id
    if any_not_ready pool.linodes then again else done pool

  -- Each wait has the ticks that the context allows at its start.
  unfoldable pub wait_for_pools_ready : (Calls → ℕ) → ℕ → String → List ℕ → Run Ack
  wait_for_pools_ready ticks id message [] = done tt
  wait_for_pools_ready ticks id message (pool_id ∷ pools) = do
    or_fail message (λ h. wait_for_node_pool_ready (ticks h) id pool_id h)
    wait_for_pools_ready ticks id message pools

  -- `is_pending` is `strings.Contains` of the message "Cluster kubeconfig is not yet available".
  abbrev pub pending_or : Bool → String → Run Ack → Run Ack
  pending_or true e again = again
  pending_or false e again = fail e

  abbrev pub kubeconfig_answer : Result String Ack → (String → Bool) → Run Ack → Run Ack
  kubeconfig_answer (ok a) is_pending again = done tt
  kubeconfig_answer (err e) is_pending again =
      pending_or (is_pending e) "failed to get Kubeconfig for LKE cluster " again

  unfoldable pub wait_for_lke_kube_config : (String → Bool) → ℕ → ℕ → Run Ack
  wait_for_lke_kube_config is_pending zero cluster_id h = fail "Error waiting for Cluster " h
  wait_for_lke_kube_config is_pending (suc ticks) cluster_id h =
      let again = wait_for_lke_kube_config is_pending ticks cluster_id in
      kubeconfig_answer (client.acts (get_kubeconfig cluster_id) h) is_pending again
        (get_kubeconfig cluster_id ∷ h)
