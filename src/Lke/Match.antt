-- ===== src/Lke/Match.antt =====
-- matchPoolsWithSchema of cluster.go: the API's pools in the order of the declared ones.
pub mod Index
pub mod Conserved
pub mod Whole
pub mod Total
use terraform_provider_linod.Prelude.{
  ℕ, zero, suc, String, Bool, true, false, not, ◌&&◌, ◌||◌, Option, none, some, List, [], ◌∷◌, ◌++◌,
  map, Slice, items, is_empty, length, Result, ok, err, ◌>>=◌, ◌==◌, ◌!=◌, nat_eq, string_eq,
  bool_eq, list_eq, option_eq, pair_eq, if◌then◌else◌,
}
use terraform_provider_linod.Prelude.Dict.{Dict, get, put, delete}
use terraform_provider_linod.Compare.{compare_sets, compare_string_sets}
use terraform_provider_linod.Lke.{Taint, taint_eq, print_taint_struct, Autoscaler, Labels}
use terraform_provider_linod.Lke.Reconcile.{expand_node_pool_taints}
use terraform_provider_linod.Lke.Specs.{
  PoolBlock, expand_autoscaler, expand_string_list, expand_object_list,
}

-- linodego's pool, with the fields that the code reads.
pub record NodePool : Type 0 where
  pub id : ℕ
  pub pool_type : String
  pub count : ℕ
  pub autoscaler : Autoscaler
  pub tags : Slice String
  pub taints : Slice Taint
  pub labels : Labels
  pub k8s_version : Option String
  pub update_strategy : Option String
  pub label : Option String
  pub firewall_id : Option ℕ

-- A slot of `result` that was not set.
abbrev pub zero_pool : NodePool
zero_pool = record {
  id = 0;
  pool_type = "";
  count = 0;
  autoscaler = record { enabled = false; minimum = 0; maximum = 0 };
  tags = none;
  taints = none;
  labels = none;
  k8s_version = none;
  update_strategy = none;
  label = none;
  firewall_id = none;
}

-- `apiPools`
unfoldable pub index_pools : List NodePool → Dict ℕ NodePool → Dict ℕ NodePool
index_pools [] api_pools = api_pools
index_pools (pool ∷ pools) api_pools = index_pools pools (put pool.id pool api_pools)

-- The slots of `result` so far, `none` for those not paired, and the pools left over.
abbrev pub Pairing : Type 0
Pairing = List (Option NodePool) × Dict ℕ NodePool

abbrev pub add_slot : Option NodePool → Result String Pairing → Result String Pairing
add_slot slot r = r >>= λ pairing. ok (slot ∷ pairing.0, pairing.1)

abbrev pub block_id : Option ℕ → Result String ℕ
block_id none = err "declared pool ID was not of type int"
block_id (some id) = ok id

-- The first loop; deleting a key that the map lacks changes nothing.
unfoldable pub pair_by_id : List PoolBlock → Dict ℕ NodePool → Result String Pairing
pair_by_id [] api_pools = ok ([], api_pools)
pair_by_id (declared_pool ∷ declared_pools) api_pools = block_id declared_pool.id >>= λ pool_id.
    add_slot (get pool_id api_pools) (pair_by_id declared_pools (delete pool_id api_pools))

abbrev enabled_of : Option Autoscaler → Bool
enabled_of none = false
enabled_of (some a) = a.enabled

abbrev same_scaler : Option Autoscaler → Autoscaler → Bool
same_scaler none api = true
same_scaler (some a) api =
    a.enabled == api.enabled && a.minimum == api.minimum && a.maximum == api.maximum

abbrev given_or_any : Option String → Option String → Bool
given_or_any none api = true
given_or_any (some s) api = s == "" || api == some s

abbrev firewall_or_any : Option ℕ → Option ℕ → Bool
firewall_or_any none api = true
firewall_or_any (some n) api = n == 0 || api == some n

-- The count to compare: a count of 0 stands for the autoscaler's minimum.
unfoldable pub declared_count : ℕ → Option Autoscaler → Result String ℕ
declared_count zero none = err "autoscaler is null when count is 0. This is always a provider issue"
declared_count zero (some a) = ok a.minimum
declared_count (suc n) a = ok (suc n)

unfoldable pub same_attributes : PoolBlock → ℕ → NodePool → Bool
same_attributes declared_pool count api_pool =
    let scaler = expand_autoscaler declared_pool in
    count == api_pool.count
    && enabled_of scaler == api_pool.autoscaler.enabled
    && same_scaler scaler api_pool.autoscaler
    && compare_string_sets (expand_string_list declared_pool.tags) (items api_pool.tags)
    && compare_sets print_taint_struct
        (some (expand_node_pool_taints (some (expand_object_list declared_pool.taints))))
        api_pool.taints
    && (some declared_pool.labels == api_pool.labels
        || (is_empty declared_pool.labels && is_empty (items api_pool.labels)))
    && given_or_any declared_pool.update_strategy api_pool.update_strategy
    && given_or_any declared_pool.k8s_version api_pool.k8s_version
    && given_or_any declared_pool.label api_pool.label
    && firewall_or_any declared_pool.firewall_id api_pool.firewall_id

-- The body of the inner loop: whether this pool is paired.
unfoldable pub is_pair : PoolBlock → NodePool → Result String Bool
is_pair declared_pool api_pool =
    if declared_pool.pool_type != api_pool.pool_type
    then ok false
    else (declared_count declared_pool.count (expand_autoscaler declared_pool) >>= λ count.
        ok (same_attributes declared_pool count api_pool))

abbrev pub found_or :
    NodePool → Bool → Result String (Option NodePool) → Result String (Option NodePool)
found_or pool true rest = ok (some pool)
found_or pool false rest = rest

unfoldable pub first_pair : PoolBlock → Dict ℕ NodePool → Result String (Option NodePool)
first_pair declared_pool [] = ok none
first_pair declared_pool ((id, pool) ∷ api_pools) = is_pair declared_pool pool >>= λ paired.
    found_or pool paired (first_pair declared_pool api_pools)

abbrev pub without : Option NodePool → Dict ℕ NodePool → Dict ℕ NodePool
without none api_pools = api_pools
without (some pool) api_pools = delete pool.id api_pools

abbrev pub slot_or_zero : Option NodePool → NodePool
slot_or_zero none = zero_pool
slot_or_zero (some pool) = pool

-- `range i` is the order in which Go ranges over the map in round `i`.
module _ (range : ℕ → Dict ℕ NodePool → Dict ℕ NodePool) where
  -- The second loop, over the declared pools that are not paired yet.
  unfoldable pub pair_by_attributes :
      ℕ → List PoolBlock → List (Option NodePool) → Dict ℕ NodePool → Result String Pairing
  pair_by_attributes i [] slots api_pools = ok (slots, api_pools)
  pair_by_attributes i (declared_pool ∷ declared_pools) [] api_pools = ok ([], api_pools)
  pair_by_attributes i (declared_pool ∷ declared_pools) (some pool ∷ slots) api_pools =
      add_slot (some pool) (pair_by_attributes (suc i) declared_pools slots api_pools)
  pair_by_attributes i (declared_pool ∷ declared_pools) (none ∷ slots) api_pools =
      first_pair declared_pool (range i api_pools) >>= λ found.
      add_slot found (pair_by_attributes (suc i) declared_pools slots (without found api_pools))

  unfoldable pub match_pools_with_schema :
      List NodePool → List PoolBlock → Result String (List NodePool)
  match_pools_with_schema pools declared_pools =
      pair_by_id declared_pools (index_pools pools []) >>= λ by_id.
      pair_by_attributes 0 declared_pools by_id.0 by_id.1 >>= λ pairing.
      ok (map slot_or_zero pairing.0 ++ map (λ e. e.1) (range (length declared_pools) pairing.1))
