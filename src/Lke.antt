-- ===== src/Lke.antt =====
-- linode/lke: the node pools of a Kubernetes cluster. This file has the data; the children follow the
-- functions of cluster.go. The structs of linodego are records of the fields that the code sets or
-- reads; an identifier or a count is a natural number, and a nil pointer is `none`.
pub mod Specs
pub mod Match
pub mod Reconcile
pub mod ControlPlane
pub mod External
pub mod Cluster
mod Tests
use Prim.Native.String.{◌++◌ as append}
use terraform_provider_linod.Prelude.{
  ℕ, String, Bool, true, false, ◌&&◌, ◌≡◌, ap, ◌↔◌, Option, List, Slice, Eq, ◌==◌, ==_iff, arith,
  nat_eq, string_eq, bool_eq, option_eq, list_eq, pair_eq,
}
use terraform_provider_linod.Prelude.Dict.{Dict}

-- A taint, as the schema's map of `key`, `value` and `effect` and as linodego's struct of these.
pub record Taint : Type 0 where
  pub key : String
  pub taint_value : String
  pub effect : String

abbrev pub taint_beq : Taint → Taint → Bool
taint_beq a b = a.key == b.key && a.taint_value == b.taint_value && a.effect == b.effect

pub taint_beq_iff : (a b : Taint) → (taint_beq a b ≡ true) ↔ (a ≡ b)
taint_beq_iff a b =
    ground (arith, ==_iff a.key b.key, ==_iff a.taint_value b.taint_value, ==_iff a.effect b.effect)

instance abbrev pub taint_eq : Eq Taint
taint_eq = record { same = taint_beq; same_iff = taint_beq_iff }

-- `fmt.Sprintf("%v", _)` of the map, whose keys are printed in order.
unfoldable pub print_taint_map : Taint → String
print_taint_map t =
    append "map[effect:" (
      append t.effect (append " key:" (append t.key (append " value:" (append t.taint_value "]")))))

-- and of linodego's struct, in the order of its fields.
unfoldable pub print_taint_struct : Taint → String
print_taint_struct t =
    append "{" (append t.key (append " " (append t.taint_value (append " " (append t.effect "}")))))

pub record Autoscaler : Type 0 where
  pub enabled : Bool
  pub minimum : ℕ
  pub maximum : ℕ

-- Labels are a `map[string]string`, listed in the order of their keys.
abbrev pub Labels : Type 0
Labels = Slice (String × String)

pub record NodePoolSpec : Type 0 where
  pub id : ℕ
  pub tags : Slice String
  pub pool_type : String
  pub count : ℕ
  pub taints : Slice Taint
  pub labels : Labels
  pub auto_scaler_enabled : Bool
  pub auto_scaler_min : ℕ
  pub auto_scaler_max : ℕ
  pub k8s_version : Option String
  pub update_strategy : Option String
  pub label : Option String
  pub firewall_id : Option ℕ

-- The fields in nested pairs, for which equality is decided.
abbrev pub SpecFields : Type 0
SpecFields =
    ℕ
    × (Slice String
        × (String
            × (ℕ
                × (Slice Taint
                    × (Labels
                        × (Bool
                            × (ℕ
                                × (ℕ
                                    × (Option String
                                        × (Option String × (Option String × Option ℕ)))))))))))

abbrev pub spec_fields : NodePoolSpec → SpecFields
spec_fields s = (
  s.id,
  (
    s.tags,
    (
      s.pool_type,
      (
        s.count,
        (
          s.taints,
          (
            s.labels,
            (
              s.auto_scaler_enabled,
              (
                s.auto_scaler_min,
                (s.auto_scaler_max, (s.k8s_version, (s.update_strategy, (s.label, s.firewall_id)))),
              ),
            ),
          ),
        ),
      ),
    ),
  ),
)

abbrev spec_of : SpecFields → NodePoolSpec
spec_of (i, (t, (p, (c, (a, (l, (e, (n, (x, (k, (u, (b, f)))))))))))) = record {
  id = i;
  tags = t;
  pool_type = p;
  count = c;
  taints = a;
  labels = l;
  auto_scaler_enabled = e;
  auto_scaler_min = n;
  auto_scaler_max = x;
  k8s_version = k;
  update_strategy = u;
  label = b;
  firewall_id = f;
}

unfoldable pub spec_beq : NodePoolSpec → NodePoolSpec → Bool
spec_beq a b = spec_fields a == spec_fields b

pub spec_beq_iff : (a b : NodePoolSpec) → (spec_beq a b ≡ true) ↔ (a ≡ b)
unfolding spec_beq
spec_beq_iff a b = (
  λ h. ap spec_of ((==_iff (spec_fields a) (spec_fields b)).0 h),
  λ e. (==_iff (spec_fields a) (spec_fields b)).1 (ap spec_fields e),
)

-- `reflect.DeepEqual` of two specs.
instance abbrev pub spec_eq : Eq NodePoolSpec
spec_eq = record { same = spec_beq; same_iff = spec_beq_iff }

pub record NodePoolCreateOptions : Type 0 where
  pub count : ℕ
  pub pool_type : String
  pub tags : Slice String
  pub labels : Labels
  pub taints : Slice Taint
  pub k8s_version : Option String
  pub update_strategy : Option String
  pub label : Option String
  pub firewall_id : Option ℕ
  pub autoscaler : Option Autoscaler

-- A nil field is left as it is by the API.
pub record NodePoolUpdateOptions : Type 0 where
  pub count : ℕ
  pub tags : Option (Slice String)
  pub labels : Option Labels
  pub taints : Option (List Taint)
  pub k8s_version : Option String
  pub update_strategy : Option String
  pub label : Option String
  pub firewall_id : Option ℕ
  pub autoscaler : Option Autoscaler

pub record NodePoolUpdates : Type 0 where
  pub to_delete : List ℕ
  pub to_create : List NodePoolCreateOptions
  pub to_update : Dict ℕ NodePoolUpdateOptions
