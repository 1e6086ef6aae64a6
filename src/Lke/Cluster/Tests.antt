-- ===== src/Lke/Cluster/Tests.antt =====
-- An API for one cluster, updates of it, and the theorems at concrete inputs.
use terraform_provider_linod.Prelude.{
  ℕ, String, Bool, false, ◌≡◌, refl, none, some, List, [], ◌∷◌, Result, ok, IsOk, nat_eq, arith,
  zero, suc, ◌≤◌,
}
use terraform_provider_linod.Prelude.Dict.{get, put, delete}
use terraform_provider_linod.Prelude.Runs.{Made, Every, after, explained}
use terraform_provider_linod.Lke.{NodePoolUpdates, NodePoolUpdateOptions}
use terraform_provider_linod.Lke.Specs.{PoolBlock, expand_linode_lke_node_pool_specs, expand_spec}
use terraform_provider_linod.Lke.Cluster.{
  Node, ready, PoolNodes, standard, EntityId, number, no_number, list_events, Ack, Calls, Client,
  as_set, forget, poll_deleted, wait_for_nodes_deleted, wait_for_node_pool_ready,
  wait_for_pools_ready,
}
use terraform_provider_linod.Lke.Cluster.Waits.{SeenReady}
use terraform_provider_linod.Lke.Cluster.Deleted.{
  Reported, polls, wait_for_nodes_deleted_reports, wait_for_nodes_deleted_ends,
}
use terraform_provider_linod.Lke.Cluster.Update.{
  ClusterPlan, Outcome, updated, send_updates, send_creates, send_deletes, apply_updates,
  update_resource,
}
use terraform_provider_linod.Lke.Cluster.Order.{DeleteAllowed}
use terraform_provider_linod.Lke.Cluster.Plan.{olds_of, news_of, update_resource_deletes}
use terraform_provider_linod.Lke.Cluster.Idle.{IsRead, update_resource_idle}
use terraform_provider_linod.Lke.Cluster.Ready.{apply_updates_ready}

abbrev node : ℕ → Node
node id = record { instance_id = id; status = ready }

abbrev pool_1 : PoolNodes
pool_1 = record { id = 1; linodes = node 101 ∷ node 102 ∷ [] }

-- The events name one node at the first poll, and both after it.
abbrev events_after : Calls → List EntityId
events_after (list_events ∷ h) = number 101 ∷ number 102 ∷ []
events_after _ = number 101 ∷ no_number ∷ []

abbrev client : Client
client = record {
  acts = λ c h. ok tt;
  answers_tier = λ c h. ok standard;
  answers_events = λ c h. ok (events_after h);
  answers_pool = λ c h. ok pool_1;
  answers_pools = λ c h. ok (pool_1 ∷ []);
}

run_wait : ℕ → Result String Ack × Calls
unfolding wait_for_nodes_deleted as_set poll_deleted forget get put delete after explained
run_wait ticks = wait_for_nodes_deleted client ticks pool_1.linodes []

two_polls : run_wait 5 ≡ (ok tt, list_events ∷ list_events ∷ [])
unfolding run_wait
two_polls = refl

wait_for_nodes_deleted_reports_example : Made (Reported client 102) (list_events ∷ list_events ∷ [])
unfolding run_wait
wait_for_nodes_deleted_reports_example =
    wait_for_nodes_deleted_reports client 5 pool_1.linodes 102 [] (list_events ∷ list_events ∷ [])
      tt refl two_polls

abbrev events_at : ℕ → List EntityId
events_at zero = number 101 ∷ no_number ∷ []
events_at (suc n) = number 101 ∷ number 102 ∷ []

answered :
    (j : ℕ) → j ≤ 1 → client.answers_events list_events (polls client j []) ≡ ok (events_at j)
answered zero le = refl
answered (suc zero) le = refl
answered (suc (suc j)) le = absurd (omega (arith, le))

wait_for_nodes_deleted_ends_example : IsOk (wait_for_nodes_deleted client 2 pool_1.linodes []).0
wait_for_nodes_deleted_ends_example =
    wait_for_nodes_deleted_ends client 1 2 pool_1.linodes [] events_at answered (λ id e. e)
      (omega arith)

abbrev ticks : Calls → ℕ
ticks h = 3

abbrev block : ℕ → String → PoolBlock
block id pool_type = record {
  id = some id;
  pool_type = pool_type;
  count = 2;
  tags = [];
  taints = [];
  labels = [];
  autoscaler = none;
  k8s_version = none;
  update_strategy = none;
  label = none;
  firewall_id = none;
}

abbrev plan : ClusterPlan
plan = record {
  id = 9;
  label = some "cluster";
  k8s_version = some "1.33";
  tags = none;
  control_plane_changed = false;
  control_plane = [];
  old_pools = block 1 "g6-standard-1" ∷ block 2 "g6-standard-1" ∷ [];
  new_pools = block 1 "g6-standard-2" ∷ [];
}

abbrev not_found : String → Bool
not_found e = false

update_resource_deletes_example :
    Every
      (DeleteAllowed 9 (olds_of plan) (news_of plan))
      (update_resource client ticks not_found plan []).1
update_resource_deletes_example = update_resource_deletes client ticks plan not_found

abbrev same_plan : ClusterPlan
same_plan = record plan { label = none; k8s_version = none; new_pools = plan.old_pools }

same_specs : olds_of same_plan ≡ news_of same_plan
unfolding expand_linode_lke_node_pool_specs expand_spec
same_specs = refl

update_resource_idle_example : Every IsRead (update_resource client ticks not_found same_plan []).1
update_resource_idle_example =
    update_resource_idle client ticks same_plan not_found refl refl same_specs

abbrev options : NodePoolUpdateOptions
options = record {
  count = 3;
  tags = none;
  labels = none;
  taints = none;
  k8s_version = none;
  update_strategy = none;
  label = none;
  firewall_id = none;
  autoscaler = none;
}

abbrev updates : NodePoolUpdates
updates = record { to_delete = 2 ∷ []; to_create = []; to_update = (1, options) ∷ [] }

run_updates : Result String Outcome × Calls
unfolding apply_updates send_updates send_creates send_deletes wait_for_pools_ready
    wait_for_node_pool_ready after explained
run_updates = apply_updates client ticks 9 updates []

apply_updates_ready_example : Made (SeenReady client 9 1) run_updates.1
unfolding run_updates
apply_updates_ready_example =
    apply_updates_ready client ticks 9 updates 1 [] run_updates.1 updated refl refl
