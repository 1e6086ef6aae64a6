-- ===== src/Filter/Validators/Reported.antt =====
-- Which names the validator passes, and what it reports of the others.
use mathlib.Core.Path.{subst}
use mathlib.Core.List.{Perm}
use terraform_provider_linod.Prelude.{
  String, Bool, Bool-cases, true, false, not, ◌&&◌, ◌||◌, Option, none, some, List, [], ◌∷◌, map,
  keep, ◌≡◌, ◌≢◌, ◌⊎◌, inl, inr, refl, arith, string_eq,
}
use terraform_provider_linod.Prelude.Dict.{get}
use terraform_provider_linod.Compare.{sort_by}
use terraform_provider_linod.Compare.Sorted.{IsSorted, sort_by-perm, sort_by-IsSorted}
use terraform_provider_linod.Filter.{
  FwString, null, unknown, value, FilterAttribute, Config, value_string,
}
use terraform_provider_linod.Filter.Validators.{
  NameError, non_filterable, unable_to_order, names_of, orderable_names, check_name,
  validate_string,
}

-- The attribute is there and, for `order_by`, the API can order by it or the attribute overrides that.
abbrev pub IsAllowed : Bool → Option FilterAttribute → Type 0
IsAllowed is_order_by none = ⊥
IsAllowed is_order_by (some a) =
    (is_order_by ≡ false) ⊎ (a.api_filterable ≡ true) ⊎ (a.allow_order_override ≡ true)

abbrev pub is_orderable : FilterAttribute → Bool
is_orderable a = a.api_filterable || a.allow_order_override

-- The given names, in order: those of the list, each as often as there.
abbrev pub Lists : List String → List String → Type 0
Lists names expected = IsSorted (λ s. s) names × Perm names expected

-- What the validator answers of a name.
abbrev pub Reports : Config → Bool → FwString → Option NameError → Type 0
Reports f is_order_by v none = (v ≡ null) ⊎ IsAllowed is_order_by (get (value_string v) f)
Reports f is_order_by v (some (non_filterable name names)) =
    (v ≢ null) × (name ≡ value_string v) × (get name f ≡ none) × Lists names (map (λ e. e.0) f)
Reports f is_order_by v (some (unable_to_order name names)) =
    (v ≢ null)
    × (name ≡ value_string v)
    × (is_order_by ≡ true)
    × ((a : FilterAttribute) × (get name f ≡ some a) × (is_orderable a ≡ false))
    × Lists names (map (λ e. e.0) (keep (λ e. is_orderable e.1) f))

sorted-Lists : (names : List String) → Lists (sort_by (λ s. s) names) names
sorted-Lists names = (sort_by-IsSorted (λ s. s) names, sort_by-perm (λ s. s) names)

names_of-map : (f : Config) → names_of f ≡ map (λ e. e.0) f
names_of-map [] = refl
names_of-map ((k, a) ∷ f) = rw (names_of-map f) refl

orderable_names-keep :
    (f : Config) → orderable_names f ≡ map (λ e. e.0) (keep (λ e. is_orderable e.1) f)
orderable_names-keep [] = refl
orderable_names-keep ((k, a) ∷ f) = ground (arith, orderable_names-keep f)

allowed :
    (is_order_by : Bool) (a : FilterAttribute)
    → (is_order_by && not a.api_filterable && not a.allow_order_override) ≡ false
    → IsAllowed is_order_by (some a)
allowed is_order_by a passed = ground (arith, passed)

check_name-Reports :
    (f : Config) (is_order_by : Bool) (v : FwString) (o : Option FilterAttribute)
    → v ≢ null
    → get (value_string v) f ≡ o
    → Reports f is_order_by v (check_name f is_order_by (value_string v) o)
check_name-Reports f is_order_by v none given e =
    (given, refl, e, subst (Lists _) (names_of-map f) (sorted-Lists (names_of f)))
check_name-Reports f is_order_by v (some a) given e =
    elim (Bool-cases (is_order_by && not a.api_filterable && not a.allow_order_override)) [
      | inl refused ↦ rw refused (
        given,
        refl,
        ground (arith, refused),
        (a, e, ground (arith, refused)),
        subst (Lists _) (orderable_names-keep f) (sorted-Lists (orderable_names f)),
      )
      | inr passed ↦ rw passed (inr (rw e (allowed is_order_by a passed)))
    ]

-- A name that is null passes, and any other exactly as its text does, which is empty for a name that is not
-- computed yet: it passes if the configuration has it and, for `order_by`, the API can order by it or the
-- attribute overrides that. If the configuration lacks it, it is reported as not filterable, with all
-- names of the configuration in order; otherwise as one that cannot be ordered by, with the names that
-- can, in order.
pub validate_string-Reports :
    (f : Config) (is_order_by : Bool) (v : FwString)
    → Reports f is_order_by v (validate_string f is_order_by v)
unfolding validate_string
validate_string-Reports f is_order_by null = inl refl
validate_string-Reports f is_order_by unknown =
    check_name-Reports f is_order_by unknown _ (λ e. cc) refl
validate_string-Reports f is_order_by (value name) =
    check_name-Reports f is_order_by (value name) _ (λ e. cc) refl
