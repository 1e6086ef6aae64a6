-- ===== src/Filter/Pipeline.antt =====
-- GetAndFilter returns what all the filters ask for, whichever side applies each of them.
use mathlib.Core.List.{Perm}
use terraform_provider_linod.Prelude.{
  ℕ, String, Bool, true, false, ◌&&◌, ◌≡◌, refl, sym, ◌∙◌, List, [], ◌∷◌, arith, ok, Result, inl,
  inr, Bool-cases, keep, All, >>=-eq-ok,
}
use terraform_provider_linod.Prelude.Perms.{keep-perm}
use terraform_provider_linod.Filter.{
  FwString, FilterModel, Config, Diagnostic, attribute, value_string,
}
use terraform_provider_linod.Filter.Value.{Struct}
use terraform_provider_linod.Filter.Api.{
  OrGroup, RootFilter, convert_values, construct_groups, construct_filter_string,
}
use terraform_provider_linod.Filter.Local.{Regex, is_sent_to_api, check_filter}
use terraform_provider_linod.Filter.GetAndFilter.{ListFunc, listed, get_and_filter}
use terraform_provider_linod.Filter.Split.{is_skipped-eq-not-is_sent_to_api}
use terraform_provider_linod.Filter.Selection.{is_match, passes_locally, apply_local_filtering_iff}

-- A filter of its own, with no API: the element matches it.
abbrev pub satisfies : Regex → (ℕ → String) → List FilterModel → Struct → Bool
satisfies regex format_time [] elem = true
satisfies regex format_time (filter ∷ filter_set) elem =
    is_match (check_filter regex format_time filter elem)
    && satisfies regex format_time filter_set elem

-- The API's reading of `+and`.
abbrev pub all_groups : (OrGroup → Struct → Bool) → List OrGroup → Struct → Bool
all_groups api_match [] elem = true
all_groups api_match (group ∷ groups) elem =
    api_match group elem && all_groups api_match groups elem

keep-keep {ℓ} :
    {A : Type ℓ} (p q r : A → Bool) (xs : List A)
    → All (λ a. (p a && q a) ≡ r a) xs
    → keep q (keep p xs) ≡ keep r xs
keep-keep p q r [] h = refl
keep-keep p q r (x ∷ xs) (here, later) = ground (arith, keep-keep p q r xs later)

abbrev pub own_group : Config → FilterModel → Result Diagnostic OrGroup
own_group f filter =
    convert_values (attribute f (value_string filter.name)) (value_string filter.name) filter.values

-- What the API is documented to do: it lists the elements that its filter matches, in some order,
-- and it compares a field of an element with a value as an exact filter of the provider does.
pub record ApiSemantics (regex : Regex) (format_time : ℕ → String) (f : Config)
    (filters : List FilterModel) (elems : List Struct) (list_func : ListFunc)
    (api_match : OrGroup → Struct → Bool) : Type 0 where
  pub lists :
      (root : RootFilter) (found : List Struct)
      → list_func root ≡ ok found
      → Perm found (keep (all_groups api_match root.and_groups) elems)
  pub compares :
      All
        (λ e.
          All
            (λ filter.
              (group : OrGroup)
              → is_sent_to_api f filter ≡ true
              → own_group f filter ≡ ok group
              → api_match group e ≡ is_match (check_filter regex format_time filter e))
            filters)
        elems

module _ (regex : Regex) (format_time : ℕ → String) (f : Config)
    (api_match : OrGroup → Struct → Bool) where
  construct_groups_skip :
      (filter : FilterModel) (filters : List FilterModel)
      → is_sent_to_api f filter ≡ false
      → construct_groups f (filter ∷ filters) ≡ construct_groups f filters
  unfolding construct_groups
  construct_groups_skip filter filters s =
      ground (arith, s, is_skipped-eq-not-is_sent_to_api f filter)

  construct_groups_inv :
      (filter : FilterModel) (filters : List FilterModel) (groups : List OrGroup)
      → is_sent_to_api f filter ≡ true
      → construct_groups f (filter ∷ filters) ≡ ok groups
      → (group : OrGroup) × (later : List OrGroup) × (own_group f filter ≡ ok group)
        × (construct_groups f filters ≡ ok later)
        × (groups ≡ group ∷ later)
  unfolding construct_groups
  construct_groups_inv filter filters groups s h =
      ground (arith, is_skipped-eq-not-is_sent_to_api f filter)

  abbrev AgreesAt : Struct → List FilterModel → Type 0
  AgreesAt e filters =
      All
        (λ filter.
          (group : OrGroup)
          → is_sent_to_api f filter ≡ true
          → own_group f filter ≡ ok group
          → api_match group e ≡ is_match (check_filter regex format_time filter e))
        filters

  -- What the groups of the request and the local filters ask together is what all filters ask.
  divided :
      (filters : List FilterModel) (groups : List OrGroup) (e : Struct)
      → AgreesAt e filters
      → construct_groups f filters ≡ ok groups
      → (all_groups api_match groups e && passes_locally regex format_time f filters e)
        ≡ satisfies regex format_time filters e
  unfolding construct_groups passes_locally
  divided [] groups e a h = let eq : groups ≡ [] = cc in rw eq refl
  divided (filter ∷ filters) groups e (a, later) h = elim (Bool-cases (is_sent_to_api f filter)) [
    | inl sent ↦
        let (group, groups', own, more, eq) = construct_groups_inv filter filters groups sent h in
        ground (arith, sent, eq, a group sent own, divided filters groups' e later more)
    | inr left ↦ ground (
      arith,
      left,
      divided filters groups e later (sym (construct_groups_skip filter filters left) ∙ h),
    )
  ]

  divided-All :
      (filters : List FilterModel) (groups : List OrGroup) (elems : List Struct)
      → All (λ e. AgreesAt e filters) elems
      → construct_groups f filters ≡ ok groups
      → All
          (λ e.
            (all_groups api_match groups e && passes_locally regex format_time f filters e)
            ≡ satisfies regex format_time filters e)
          elems
  divided-All filters groups [] a h = tt
  divided-All filters groups (e ∷ elems) (a, later) h =
      (divided filters groups e a h, divided-All filters groups elems later h)

  -- If the API keeps to its documented behaviour and GetAndFilter returns without an error, it returns,
  -- up to the API's order, exactly the elements that match every filter.
  pub get_and_filter_exact :
      (filters : List FilterModel) (elems : List Struct) (list_func : ListFunc)
      → ApiSemantics regex format_time f filters elems list_func api_match
      → (order order_by : FwString) {found : List Struct}
      → get_and_filter regex format_time f filters list_func order order_by ≡ ok found
      → Perm found (keep (satisfies regex format_time filters) elems)
  unfolding get_and_filter construct_filter_string
  get_and_filter_exact filters elems list_func api order order_by {found} h =
      let (root, made, h1) = >>=-eq-ok (construct_filter_string f filters order order_by) _ h in
      let (groups, grouped, h2) = >>=-eq-ok (construct_groups f filters) _ made in
      let (elems', got, h3) = >>=-eq-ok (listed (list_func root)) _ h1 in
      let asked : root.and_groups ≡ groups = cc (h2) in
      let served : list_func root ≡ ok elems' = ground (arith, got) in
      let local = passes_locally regex format_time f filters in
      rw ((apply_local_filtering_iff regex format_time f filters elems' found).0 h3).0 (
        rw
          (← keep-keep (all_groups api_match groups) local (satisfies regex format_time filters)
            elems (divided-All filters groups elems api.compares grouped))
          (keep-perm local (rw asked at (api.lists root elems' served))))
