-- ===== src/Filter/Api.antt =====
-- api_filter.go: the part of the filters that is sent to the API.
use terraform_provider_linod.Prelude.{
  String, Bool, true, not, ◌&&◌, Option, none, some, List, [], ◌∷◌, Result, ok, err, ◌>>=◌, ◌!=◌,
  string_eq, if◌then◌else◌,
}
use terraform_provider_linod.Filter.{
  FwString, FilterModel, FilterValue, FilterAttribute, Config, Diagnostic, value_not_converted,
  attribute, is_null, value_string,
}

-- One `+or` group: a list of objects with one key each.
abbrev pub OrGroup : Type 0
OrGroup = List (String × FilterValue)

-- The value that is handed to `json.Marshal`: `+and`, `+order` and, if it is given, `+order_by`.
pub record RootFilter : Type 0 where
  pub and_groups : List OrGroup
  pub order : String
  pub order_by : Option String

unfoldable pub convert_values : FilterAttribute → String → List FwString → Result Diagnostic OrGroup
convert_values a field_name [] = ok []
convert_values a field_name (v ∷ values) =
    let rest = convert_values a field_name values in
    elim (a.type_func (value_string v)) [
      | err e ↦ err (value_not_converted e)
      | ok converted ↦ rest >>= λ group. ok ((field_name, converted) ∷ group)
    ]

-- The two `continue` guards of the loop.
unfoldable pub is_skipped : Config → FilterModel → Bool
is_skipped f filter =
    if not (attribute f (value_string filter.name)).api_filterable
    then true
    else not (is_null filter.match_by) && value_string filter.match_by != "exact"

unfoldable pub construct_groups : Config → List FilterModel → Result Diagnostic (List OrGroup)
construct_groups f [] = ok []
construct_groups f (filter ∷ filter_set) =
    let rest = construct_groups f filter_set in
    let name = value_string filter.name in
    if is_skipped f filter
    then rest
    else elim (convert_values (attribute f name) name filter.values) [
      | err d ↦ err d
      | ok group ↦ rest >>= λ groups. ok (group ∷ groups)
    ]

-- "desc" is the default order.
unfoldable pub construct_filter_string :
    Config → List FilterModel → FwString → FwString → Result Diagnostic RootFilter
construct_filter_string f filter_set order order_by = construct_groups f filter_set >>= λ groups.
    ok (record {
      and_groups = groups;
      order = if is_null order then "desc" else value_string order;
      order_by = if is_null order_by then none else some (value_string order_by);
    })
