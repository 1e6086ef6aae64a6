-- ===== src/Filter/Validators.antt =====
-- validators.go: which names a `filter` or `order_by` may use.
pub mod Reported
use terraform_provider_linod.Prelude.{
  String, Bool, true, false, not, ◌&&◌, Option, none, some, List, [], ◌∷◌, ◌≡◌, ◌↔◌, ◌⊎◌, arith,
  string_eq, if◌then◌else◌,
}
use terraform_provider_linod.Prelude.Dict.{get}
use terraform_provider_linod.Compare.{sort_by}
use terraform_provider_linod.Filter.{
  FwString, null, unknown, value, FilterAttribute, Config, value_string,
}

-- The two attribute errors: the field, and the sorted names that the message lists.
pub data NameError : Type 0 where
  non_filterable : String → List String → NameError
  unable_to_order : String → List String → NameError

abbrev pub names_of : Config → List String
names_of [] = []
names_of ((k, a) ∷ f) = k ∷ names_of f

abbrev pub orderable_names : Config → List String
orderable_names [] = []
orderable_names ((k, a) ∷ f) =
    let rest = orderable_names f in
    if not a.api_filterable && not a.allow_order_override then rest else k ∷ rest

abbrev pub check_name : Config → Bool → String → Option FilterAttribute → Option NameError
check_name f is_order_by name none = some (non_filterable name (sort_by (λ s. s) (names_of f)))
check_name f is_order_by name (some a) =
    if is_order_by && not a.api_filterable && not a.allow_order_override
    then some (unable_to_order name (sort_by (λ s. s) (orderable_names f)))
    else none

unfoldable pub validate_string : Config → Bool → FwString → Option NameError
validate_string f is_order_by null = none
validate_string f is_order_by v = check_name f is_order_by (value_string v) (get (value_string v) f)
