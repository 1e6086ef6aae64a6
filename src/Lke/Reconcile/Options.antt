-- ===== src/Lke/Reconcile/Options.antt =====
-- What the update of a pool achieves, and what it leaves undone.
use terraform_provider_linod.Prelude.{
  ℕ, String, Bool, ◌≡◌, refl, Option, none, some, ==_iff, nat_eq, string_eq, bool_eq, arith,
}
use terraform_provider_linod.Lke.{Autoscaler, NodePoolSpec, NodePoolUpdateOptions}
use terraform_provider_linod.Lke.Reconcile.{update_options, label_update, firewall_update}

-- A label as the API has it: none is the empty one.
abbrev pub shown : Option String → String
shown none = ""
shown (some s) = s

abbrev pub kept_or {ℓ} : {A : Type ℓ} → A → Option A → A
kept_or old none = old
kept_or old (some new) = new

-- The API's reading of an update: a nil field leaves the pool's value.
abbrev pub label_after : NodePoolSpec → NodePoolUpdateOptions → String
label_after old u = kept_or (shown old.label) u.label

abbrev pub firewall_after : NodePoolSpec → NodePoolUpdateOptions → Option ℕ
firewall_after old u = elim u.firewall_id [ none ↦ old.firewall_id | some f ↦ some f ]

abbrev pub scaler_of : NodePoolSpec → Autoscaler
scaler_of s = record {
  enabled = s.auto_scaler_enabled;
  minimum = s.auto_scaler_min;
  maximum = s.auto_scaler_max;
}

label_reached : (new old : Option String) → kept_or (shown old) (label_update new old) ≡ shown new
label_reached none none = refl
label_reached none (some o) = refl
label_reached (some n) none = refl
label_reached (some n) (some o) = ground (arith, ==_iff n o)

firewall_reached :
    (new old : Option ℕ)
    → (elim (firewall_update new old) [ none ↦ old | some f ↦ some f ])
      ≡ (elim new [ none ↦ old | some f ↦ some f ])
firewall_reached none none = refl
firewall_reached none (some o) = refl
firewall_reached (some n) none = refl
firewall_reached (some n) (some o) = ground (arith, ==_iff n o)

-- After an update of a pool, standard or enterprise, its count, its tags, its label (an absent one
-- being the empty one) and its autoscaler are those of the new spec.
pub update_options_reaches :
    (enterprise : Bool) (new old : NodePoolSpec)
    → let u = update_options enterprise new old in
      (u.count ≡ new.count)
      × (kept_or old.tags u.tags ≡ new.tags)
      × (label_after old u ≡ shown new.label)
      × (kept_or (scaler_of old) u.autoscaler ≡ scaler_of new)
unfolding update_options
update_options_reaches enterprise new old = (
  refl,
  refl,
  label_reached new.label old.label,
  ground (
    arith,
    ==_iff new.auto_scaler_enabled old.auto_scaler_enabled,
    ==_iff new.auto_scaler_min old.auto_scaler_min,
    ==_iff new.auto_scaler_max old.auto_scaler_max,
  ),
)

-- After an update the firewall of the pool is that of the new spec, but a firewall that the new spec
-- no longer has stays attached.
pub update_options_firewall :
    (enterprise : Bool) (new old : NodePoolSpec)
    → firewall_after old (update_options enterprise new old)
      ≡ (elim new.firewall_id [ none ↦ old.firewall_id | some f ↦ some f ])
unfolding update_options
update_options_firewall enterprise new old = firewall_reached new.firewall_id old.firewall_id
