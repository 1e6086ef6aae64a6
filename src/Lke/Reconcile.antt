-- ===== src/Lke/Reconcile.antt =====
-- ReconcileLKENodePoolSpecs of cluster.go: from the old and the new specs to the calls to make.
pub mod Accounting
pub mod Outcome
pub mod Options
use terraform_provider_linod.Prelude.{
  ℕ, zero, suc, ◌+◌, String, Bool, true, false, not, ◌&&◌, ◌||◌, Option, none, some, List, [], ◌∷◌,
  ◌++◌, Slice, items, length, take, drop, is_empty, ltb, min, Result, ok, err, ◌>>=◌, ◌==◌, ◌!=◌,
  nat_eq, string_eq, bool_eq, list_eq, option_eq, pair_eq, if◌then◌else◌,
}
use terraform_provider_linod.Prelude.Dict.{Dict, put}
use terraform_provider_linod.Compare.{compare_sets}
use terraform_provider_linod.Lke.{
  Taint, taint_eq, print_taint_map, Autoscaler, NodePoolSpec, spec_eq, NodePoolCreateOptions,
  NodePoolUpdateOptions, NodePoolUpdates,
}

-- `make` with the length of the taints, so the result is never nil.
unfoldable pub expand_node_pool_taints : Slice Taint → List Taint
expand_node_pool_taints taints = items taints

-- `p != nil && *p != ""`, and the same for a number
abbrev pub present : Option String → Option String
present none = none
present (some s) = if s == "" then none else some s

abbrev pub present_id : Option ℕ → Option ℕ
present_id none = none
present_id (some n) = if n == 0 then none else some n

abbrev expand_given : Slice Taint → Slice Taint
expand_given none = none
expand_given (some taints) = some (expand_node_pool_taints (some taints))

abbrev create_options : NodePoolSpec → ℕ → NodePoolCreateOptions
create_options spec count = record {
  count = count;
  pool_type = spec.pool_type;
  tags = spec.tags;
  labels = spec.labels;
  taints = expand_given spec.taints;
  k8s_version = spec.k8s_version;
  update_strategy = spec.update_strategy;
  label = present spec.label;
  firewall_id = present_id spec.firewall_id;
  autoscaler =
      if spec.auto_scaler_enabled
      then some (record {
        enabled = true;
        minimum = spec.auto_scaler_min;
        maximum = spec.auto_scaler_max;
      })
      else none;
}

-- The closure `createPool` up to its append.
unfoldable pub create_pool : NodePoolSpec → Result String NodePoolCreateOptions
unfolding expand_node_pool_taints
create_pool spec =
    if spec.count == 0
    then (if not spec.auto_scaler_enabled
        then err "count was 0 without an autoscaler. This is always a provider issue"
        else ok (create_options spec spec.auto_scaler_min))
    else ok (create_options spec spec.count)

unfoldable pub append_create : NodePoolUpdates → NodePoolSpec → Result String NodePoolUpdates
append_create result spec = create_pool spec >>= λ options.
    ok (record result { to_create = result.to_create ++ options ∷ [] })

unfoldable pub delete_pool : NodePoolUpdates → ℕ → NodePoolUpdates
delete_pool result id = record result { to_delete = result.to_delete ++ id ∷ [] }

unfoldable pub delete_pools : NodePoolUpdates → List NodePoolSpec → NodePoolUpdates
delete_pools result [] = result
delete_pools result (v ∷ specs) = delete_pools (delete_pool result v.id) specs

unfoldable pub create_pools : NodePoolUpdates → List NodePoolSpec → Result String NodePoolUpdates
create_pools result [] = ok result
create_pools result (v ∷ specs) = append_create result v >>= λ result'. create_pools result' specs

-- The three-way test on a pointer: send the new value, an empty one, or nothing.
abbrev pub label_update : Option String → Option String → Option String
label_update (some new) (some old) = if new != old then some new else none
label_update (some new) none = some new
label_update none (some old) = some ""
label_update none none = none

-- The same test on the firewall; a value that was removed sets the field to nil, as it already is.
abbrev pub firewall_update : Option ℕ → Option ℕ → Option ℕ
firewall_update (some new) (some old) = if new != old then some new else none
firewall_update (some new) none = some new
firewall_update none (some old) = none
firewall_update none none = none

-- Sent where both are set and differ.
abbrev pub changed : Option String → Option String → Option String
changed (some new) (some old) = if new != old then some new else none
changed _ _ = none

unfoldable pub update_options : Bool → NodePoolSpec → NodePoolSpec → NodePoolUpdateOptions
unfolding expand_node_pool_taints
update_options enterprise new old = record {
  count = new.count;
  tags = some new.tags;
  labels =
      if new.labels != old.labels
        && (not (is_empty (items new.labels)) || not (is_empty (items old.labels)))
      then some new.labels
      else none;
  taints =
      if not (compare_sets print_taint_map new.taints old.taints)
      then some (expand_node_pool_taints new.taints)
      else none;
  k8s_version = if enterprise then changed new.k8s_version old.k8s_version else none;
  update_strategy = if enterprise then changed new.update_strategy old.update_strategy else none;
  label = label_update new.label old.label;
  firewall_id = firewall_update new.firewall_id old.firewall_id;
  autoscaler =
      if new.auto_scaler_enabled != old.auto_scaler_enabled
        || new.auto_scaler_min != old.auto_scaler_min
        || new.auto_scaler_max != old.auto_scaler_max
      then some (record {
        enabled = new.auto_scaler_enabled;
        minimum = new.auto_scaler_min;
        maximum = new.auto_scaler_max;
      })
      else none;
}

-- One round of the loop over the pools that both lists have.
unfoldable pub reconcile_pair :
    Bool → NodePoolUpdates → NodePoolSpec → NodePoolSpec → Result String NodePoolUpdates
reconcile_pair enterprise result new old =
    if new == old
    then ok result
    else if new.pool_type != old.pool_type
    then (append_create result new >>= λ result'. ok (delete_pool result' old.id))
    else ok (record result {
      to_update = put old.id (update_options enterprise new old) result.to_update;
    })

unfoldable pub reconcile_pairs :
    Bool → NodePoolUpdates → List NodePoolSpec → List NodePoolSpec → Result String NodePoolUpdates
reconcile_pairs enterprise result [] olds = ok result
reconcile_pairs enterprise result (new ∷ news) [] = ok result
reconcile_pairs enterprise result (new ∷ news) (old ∷ olds) =
    reconcile_pair enterprise result new old >>= λ result'.
    reconcile_pairs enterprise result' news olds

abbrev pub no_updates : NodePoolUpdates
no_updates = record { to_delete = []; to_create = []; to_update = [] }

-- What was built before an error is returned beside it and dropped by the caller, so an error is
-- returned alone.
unfoldable pub reconcile_lke_node_pool_specs :
    List NodePoolSpec → List NodePoolSpec → Bool → Result String NodePoolUpdates
reconcile_lke_node_pool_specs old_specs new_specs enterprise =
    let deleted =
      if ltb (length new_specs) (length old_specs)
      then delete_pools no_updates (drop (length new_specs) old_specs)
      else no_updates in
    let created =
      if ltb (length old_specs) (length new_specs)
      then create_pools deleted (drop (length old_specs) new_specs)
      else ok deleted in
    created >>= λ result.
    reconcile_pairs enterprise result (take (min (length old_specs) (length new_specs)) new_specs)
      old_specs
