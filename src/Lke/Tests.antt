-- ===== src/Lke/Tests.antt =====
-- Runs of the reconciliation of node pools, and the theorems at concrete inputs.
mod Plane
use mathlib.Core.List.{Perm}
use terraform_provider_linod.Prelude.{
  IsOk, ℕ, String, true, false, ◌≡◌, refl, Option, none, some, List, [], ◌∷◌, map, Result, ok, any,
  All, keep, ◌==◌, nat_eq, string_eq, bool_eq, option_eq, list_eq, pair_eq,
}
use terraform_provider_linod.Prelude.Dict.{get, put, delete}
use terraform_provider_linod.Lke.{taint_eq, NodePoolSpec, spec_beq, spec_eq, NodePoolUpdates}
use terraform_provider_linod.Lke.Reconcile.{
  reconcile_lke_node_pool_specs, reconcile_pairs, reconcile_pair, create_pools, append_create,
  create_pool, delete_pools, delete_pool, update_options, no_updates,
}
use terraform_provider_linod.Lke.Reconcile.Accounting.{
  reconcile_exact, created, deleted, updated, options_of, put_updates, lacks_count,
}
use terraform_provider_linod.Lke.Reconcile.Outcome.{fails, fails-reconcile, reconcile_unchanged}
use terraform_provider_linod.Lke.Reconcile.Options.{
  update_options_reaches, update_options_firewall, kept_or, label_after, firewall_after, scaler_of,
  shown,
}
use terraform_provider_linod.Lke.Specs.{
  text, PoolBlock, expand_linode_lke_node_pool_specs, expand_spec, expanded_have_ids, expand_all,
  expand_autoscaler, expand_string_list, expand_object_list,
}
use terraform_provider_linod.Lke.Reconcile.{expand_node_pool_taints}
use terraform_provider_linod.Compare.{
  compare_sets, compare_slices, compare_string_sets, sort_by, insert_by,
}
use terraform_provider_linod.Lke.Match.{
  NodePool, match_pools_with_schema, pair_by_id, pair_by_attributes, index_pools, first_pair,
  is_pair, same_attributes, declared_count,
}
use terraform_provider_linod.Lke.Match.Total.{match_pools_with_schema-IsOk}
use terraform_provider_linod.Lke.Match.Conserved.{in_order-Ranges}
use terraform_provider_linod.Lke.Match.Whole.{has_id, match_pools_with_schema-perm}

abbrev pool : ℕ → String → ℕ → Option String → NodePoolSpec
pool id pool_type count label = record {
  id = id;
  tags = some [];
  pool_type = pool_type;
  count = count;
  taints = some [];
  labels = some [];
  auto_scaler_enabled = false;
  auto_scaler_min = count;
  auto_scaler_max = count;
  k8s_version = none;
  update_strategy = none;
  label = label;
  firewall_id = some 7;
}

-- One pool is relabelled, one changes its type, and one is gone.
abbrev old_pools : List NodePoolSpec
old_pools =
    pool 1 "g6-standard-1" 3 (some "web")
    ∷ pool 2 "g6-standard-1" 2 none
    ∷ pool 3 "g6-standard-2" 1 none
    ∷ []

abbrev new_pools : List NodePoolSpec
new_pools = pool 0 "g6-standard-1" 3 none ∷ pool 0 "g6-dedicated-2" 2 none ∷ []

-- The line opens what a run computes with.
run_reconcile : List NodePoolSpec → List NodePoolSpec → Result String NodePoolUpdates
unfolding reconcile_lke_node_pool_specs reconcile_pairs reconcile_pair create_pools append_create
    create_pool delete_pools delete_pool spec_beq put
run_reconcile olds news = reconcile_lke_node_pool_specs olds news false

abbrev expected : NodePoolUpdates
expected = record {
  to_delete = 3 ∷ 2 ∷ [];
  to_create = options_of (pool 0 "g6-dedicated-2" 2 none) ∷ [];
  to_update =
      (
        1,
        update_options false (pool 0 "g6-standard-1" 3 none)
            (pool 1 "g6-standard-1" 3 (some "web")),
      )
      ∷ [];
}

reconcile_runs : reconcile_lke_node_pool_specs old_pools new_pools false ≡ ok expected
unfolding run_reconcile
reconcile_runs = refl

reconcile_exact_example :
    (expected.to_delete ≡ map (λ s. s.id) (deleted old_pools new_pools))
    × (expected.to_create ≡ map options_of (created old_pools new_pools))
    × (expected.to_update ≡ put_updates false [] (updated old_pools new_pools))
reconcile_exact_example = reconcile_exact old_pools new_pools false reconcile_runs

fails-reconcile_example :
    fails (reconcile_lke_node_pool_specs old_pools new_pools false)
    ≡ any lacks_count (created old_pools new_pools)
fails-reconcile_example = fails-reconcile old_pools new_pools false

abbrev before : NodePoolSpec
before = pool 1 "g6-standard-1" 3 (some "web")

abbrev without_firewall : NodePoolSpec
without_firewall = record (pool 0 "g6-standard-1" 5 none) { firewall_id = none }

update_options_reaches_example :
    let u = update_options true without_firewall before in
    (u.count ≡ without_firewall.count)
    × (kept_or before.tags u.tags ≡ without_firewall.tags)
    × (label_after before u ≡ shown without_firewall.label)
    × (kept_or (scaler_of before) u.autoscaler ≡ scaler_of without_firewall)
update_options_reaches_example = update_options_reaches true without_firewall before

update_options_firewall_example :
    firewall_after before (update_options false without_firewall before) ≡ some 7
update_options_firewall_example = update_options_firewall false without_firewall before

abbrev block : Option ℕ → PoolBlock
block id = record {
  id = id;
  pool_type = "g6-standard-1";
  count = 3;
  tags = text "web" ∷ text "" ∷ [];
  taints = [];
  labels = [];
  autoscaler = none;
  k8s_version = none;
  update_strategy = some "";
  label = none;
  firewall_id = some 0;
}

abbrev blocks : List PoolBlock
blocks = block (some 4) ∷ block none ∷ []

abbrev api_pool : ℕ → NodePool
api_pool id = record {
  id = id;
  pool_type = "g6-standard-1";
  count = 3;
  autoscaler = record { enabled = false; minimum = 3; maximum = 3 };
  tags = some ("web" ∷ []);
  taints = none;
  labels = none;
  k8s_version = none;
  update_strategy = none;
  label = none;
  firewall_id = some 7;
}

abbrev api_pools : List NodePool
api_pools = api_pool 5 ∷ api_pool 9 ∷ []

-- One declared pool has an identifier, and one is found by its attributes.
abbrev declared : List PoolBlock
declared = block (some 0) ∷ block (some 5) ∷ []

run_match : List NodePool → List PoolBlock → Result String (List NodePool)
unfolding match_pools_with_schema pair_by_id pair_by_attributes index_pools first_pair is_pair
    same_attributes declared_count get put delete expand_autoscaler expand_string_list
    expand_object_list expand_node_pool_taints compare_sets compare_slices compare_string_sets
    sort_by insert_by
run_match pools blocks = match_pools_with_schema (λ i d. d) pools blocks

match_runs :
    match_pools_with_schema (λ i d. d) api_pools declared ≡ ok (api_pool 9 ∷ api_pool 5 ∷ [])
unfolding run_match
match_runs = refl

match_pools_with_schema-perm_example : Perm (keep has_id (api_pool 9 ∷ api_pool 5 ∷ [])) api_pools
match_pools_with_schema-perm_example =
    match_pools_with_schema-perm (λ i d. d) api_pools declared (api_pool 9 ∷ api_pool 5 ∷ [])
      in_order-Ranges ((refl, tt), (tt, tt)) (refl, (refl, tt)) match_runs

match_pools_with_schema-IsOk_example : IsOk (match_pools_with_schema (λ i d. d) api_pools declared)
match_pools_with_schema-IsOk_example =
    match_pools_with_schema-IsOk (λ i d. d) api_pools declared (refl, (refl, tt))
