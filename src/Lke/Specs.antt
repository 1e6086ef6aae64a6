-- ===== src/Lke/Specs.antt =====
-- expandLinodeLKENodePoolSpecs and expandLinodeLKEClusterAutoscalerFromPool of cluster.go.
use terraform_provider_linod.Prelude.{
  ℕ, String, Bool, true, false, not, ◌&&◌, ◌≡◌, refl, Option, none, some, List, [], ◌∷◌, map, ◌==◌,
  ◌!=◌, nat_eq, string_eq, if◌then◌else◌, All,
}
use terraform_provider_linod.Lke.{Taint, Autoscaler, NodePoolSpec}
use terraform_provider_linod.Lke.Reconcile.{present, present_id}

-- One element of a set or list of the SDK.
pub data Item : Type 0 where
  text : String → Item
  object : Taint → Item
  other : Item

-- `ExpandStringList` drops what is no string, and empty strings.
unfoldable pub expand_string_list : List Item → List String
expand_string_list [] = []
expand_string_list (text s ∷ items) =
    let rest = expand_string_list items in if s != "" then s ∷ rest else rest
expand_string_list (_ ∷ items) = expand_string_list items

-- `ExpandObjectList` keeps the maps.
unfoldable pub expand_object_list : List Item → List Taint
expand_object_list [] = []
expand_object_list (object t ∷ items) = t ∷ expand_object_list items
expand_object_list (_ ∷ items) = expand_object_list items

-- A `pool` block: the schema's map, with `none` where the code tests that a key holds its type.
pub record PoolBlock : Type 0 where
  pub id : Option ℕ
  pub pool_type : String
  pub count : ℕ
  pub tags : List Item
  pub taints : List Item
  pub labels : List (String × String)
  pub autoscaler : Option (List (ℕ × ℕ))
  pub k8s_version : Option String
  pub update_strategy : Option String
  pub label : Option String
  pub firewall_id : Option ℕ

abbrev first_scaler : List (ℕ × ℕ) → Option Autoscaler
first_scaler [] = none
first_scaler ((lo, hi) ∷ rest) = some (record { enabled = true; minimum = lo; maximum = hi })

-- `expandLinodeLKEClusterAutoscalerFromPool`
unfoldable pub expand_autoscaler : PoolBlock → Option Autoscaler
expand_autoscaler pool = elim pool.autoscaler [ none ↦ none | some specs ↦ first_scaler specs ]

abbrev pub scaler_or_count : Option Autoscaler → ℕ → Autoscaler
scaler_or_count none count = record { enabled = false; minimum = count; maximum = count }
scaler_or_count (some a) count = a

-- `specMap["id"].(int)`: the schema makes it a number, 0 where it is not known.
abbrev pub id_or_zero : Option ℕ → ℕ
id_or_zero none = 0
id_or_zero (some n) = n

unfoldable pub expand_spec : PoolBlock → NodePoolSpec
unfolding expand_string_list expand_object_list expand_autoscaler
expand_spec pool =
    let autoscaler = scaler_or_count (expand_autoscaler pool) pool.count in
    record {
      id = id_or_zero pool.id;
      tags = some (expand_string_list pool.tags);
      pool_type = pool.pool_type;
      count = pool.count;
      taints = some (expand_object_list pool.taints);
      labels = some pool.labels;
      auto_scaler_enabled = autoscaler.enabled;
      auto_scaler_min = autoscaler.minimum;
      auto_scaler_max = autoscaler.maximum;
      k8s_version = present pool.k8s_version;
      update_strategy = present pool.update_strategy;
      label = present pool.label;
      firewall_id = present_id pool.firewall_id;
    }

abbrev keep_spec : Bool → PoolBlock → List NodePoolSpec → List NodePoolSpec
keep_spec true spec rest = rest
keep_spec false spec rest = expand_spec spec ∷ rest

unfoldable pub expand_linode_lke_node_pool_specs : List PoolBlock → Bool → List NodePoolSpec
expand_linode_lke_node_pool_specs [] preserve_no_target = []
expand_linode_lke_node_pool_specs (spec ∷ pool) preserve_no_target =
    let rest = expand_linode_lke_node_pool_specs pool preserve_no_target in
    keep_spec (not preserve_no_target && id_or_zero spec.id == 0) spec rest

keep_spec_has_id :
    (zero : Bool) (spec : PoolBlock) (rest : List NodePoolSpec)
    → (id_or_zero spec.id == 0) ≡ zero
    → All (λ (s : NodePoolSpec). (s.id == 0) ≡ false) rest
    → All (λ (s : NodePoolSpec). (s.id == 0) ≡ false) (keep_spec zero spec rest)
unfolding expand_spec
keep_spec_has_id true spec rest e all = all
keep_spec_has_id false spec rest e all = (e, all)

-- Without `preserveNoTarget` every expanded spec has an identifier that is not 0.
pub expanded_have_ids :
    (pool : List PoolBlock)
    → All (λ (s : NodePoolSpec). (s.id == 0) ≡ false) (expand_linode_lke_node_pool_specs pool false)
unfolding expand_linode_lke_node_pool_specs
expanded_have_ids [] = tt
expanded_have_ids (spec ∷ pool) =
    keep_spec_has_id (id_or_zero spec.id == 0) spec _ refl (expanded_have_ids pool)

-- With `preserveNoTarget` every block is expanded, in order.
pub expand_all :
    (pool : List PoolBlock) → expand_linode_lke_node_pool_specs pool true ≡ map expand_spec pool
unfolding expand_linode_lke_node_pool_specs
expand_all [] = refl
expand_all (spec ∷ pool) = rw (expand_all pool)
