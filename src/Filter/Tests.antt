-- ===== src/Filter/Tests.antt =====
-- Runs of the filters on two instances, and the theorems at concrete inputs.
use mathlib.Core.List.{Perm}
use mathlib.Core.List.Perm
use terraform_provider_linod.Prelude.{
  ℕ, String, Bool, true, false, ◌≡◌, refl, ◌↔◌, List, [], ◌∷◌, none, some, Result, ok, err, keep,
  All, any, ◌==◌, string_eq,
}
use terraform_provider_linod.Prelude.Dict.{get}
use terraform_provider_linod.Filter.{
  null, unknown, value, FilterModel, FilterValue, text, Config, Diagnostic, attribute,
  is_exact_match_filter,
}
use terraform_provider_linod.Filter.Value.{
  string, slice, time, next, end, Struct, resolve_struct_value_by_json,
  resolve_struct_field_by_json, normalize_value, lowers_to,
}
use terraform_provider_linod.Filter.Api.{
  OrGroup, is_skipped, construct_filter_string, construct_groups, convert_values,
}
use terraform_provider_linod.Filter.Local.{
  Regex, is_sent_to_api, apply_local_filtering, matches_filter, check_filter,
  check_field_matches_filter, check_scalar, run_check, check_filter_exact, check_filter_sub_string,
  text_contains,
}
use terraform_provider_linod.Filter.GetAndFilter.{ListFunc, get_and_filter}
use terraform_provider_linod.Filter.Selection.{
  apply_local_filtering_iff, NeverFails, passes_locally, is_match,
}
use terraform_provider_linod.Filter.Pipeline.{
  ApiSemantics, all_groups, satisfies, get_and_filter_exact, own_group,
}
use Prim.Native.String.{count}
use terraform_provider_linod.Filter.Latest.{
  field_by_name, get_and_validate_field_by_name, get_created_time, get_version, scan_newest,
  is_after, get_latest_created, get_latest_version,
}
use terraform_provider_linod.Filter.Validators.{non_filterable, validate_string}
use terraform_provider_linod.Filter.Validators.Reported.{Reports, validate_string-Reports}
use terraform_provider_linod.Compare.{sort_by, insert_by}

abbrev no_regex : Regex
no_regex s = err "unsupported"

abbrev no_time : ℕ → String
no_time t = ""

abbrev config : Config
config =
    (
      "label",
      record { api_filterable = true; type_func = λ s. ok (text s); allow_order_override = false },
    )
    ∷ (
      "tags",
      record { api_filterable = false; type_func = λ s. ok (text s); allow_order_override = false },
    )
    ∷ []

abbrev instance_of : String → String → Struct
instance_of label tag =
    record { name = "Label"; json_tag = some "label"; field_value = string label }
    ∷ record { name = "Tags"; json_tag = some "tags"; field_value = slice (next (string tag) end) }
    ∷ []

abbrev instances : List Struct
instances =
    instance_of "web" "production" ∷ instance_of "db" "production" ∷ instance_of "web" "test" ∷ []

abbrev by_label : FilterModel
by_label = record { name = value "label"; values = value "web" ∷ []; match_by = null }

abbrev by_tag : FilterModel
by_tag = record { name = value "tags"; values = value "prod" ∷ []; match_by = value "substring" }

abbrev filters : List FilterModel
filters = by_label ∷ by_tag ∷ []

-- The API of the example: it compares the label.
abbrev label_of : Struct → String
label_of [] = ""
label_of (field ∷ rest) = elim field.field_value [ string s ↦ s | _ ↦ "" ]

abbrev value_text : FilterValue → String
value_text (text s) = s
value_text _ = ""

abbrev example_match : OrGroup → Struct → Bool
example_match group e = any (λ entry. label_of e == value_text entry.1) group

abbrev example_list : ListFunc
example_list root = ok (keep (all_groups example_match root.and_groups) instances)

-- The line opens what a run computes with.
run_filters : List FilterModel → Result Diagnostic (List Struct)
unfolding get_and_filter construct_filter_string construct_groups is_skipped attribute get
    convert_values apply_local_filtering matches_filter is_sent_to_api is_exact_match_filter
    check_filter resolve_struct_value_by_json resolve_struct_field_by_json lowers_to
    check_field_matches_filter check_scalar normalize_value check_filter_exact
    check_filter_sub_string run_check text_contains
run_filters chosen = get_and_filter no_regex no_time config chosen example_list null null

get_and_filter_runs :
    get_and_filter no_regex no_time config filters example_list null null
    ≡ ok (instance_of "web" "production" ∷ [])
unfolding run_filters
get_and_filter_runs = refl

apply_local_filtering_iff_example :
    (apply_local_filtering no_regex no_time config filters instances
      ≡ ok (instance_of "web" "production" ∷ instance_of "db" "production" ∷ []))
    ↔ (((instance_of "web" "production" ∷ instance_of "db" "production" ∷ [])
          ≡ keep (passes_locally no_regex no_time config filters) instances)
        × All (NeverFails no_regex no_time config filters) instances)
apply_local_filtering_iff_example =
    apply_local_filtering_iff no_regex no_time config filters instances
      (instance_of "web" "production" ∷ instance_of "db" "production" ∷ [])

asked :
    (group : OrGroup)
    → ◌≡◌ {A = Result Diagnostic OrGroup} (ok (("label", text "web") ∷ [])) (ok group)
    → group ≡ ("label", text "web") ∷ []
asked group own = cc

abbrev AgreesOn : Struct → Type 0
AgreesOn e =
    All
      (λ filter.
        (group : OrGroup)
        → is_sent_to_api config filter ≡ true
        → own_group config filter ≡ ok group
        → example_match group e ≡ is_match (check_filter no_regex no_time filter e))
      filters

on_web : AgreesOn (instance_of "web" "production")
unfolding run_filters
on_web = ((λ group s own. rw (asked group own)), (λ group s own. cc, tt))

on_db : AgreesOn (instance_of "db" "production")
unfolding run_filters
on_db = ((λ group s own. rw (asked group own)), (λ group s own. cc, tt))

on_web_test : AgreesOn (instance_of "web" "test")
unfolding run_filters
on_web_test = ((λ group s own. rw (asked group own)), (λ group s own. cc, tt))

example_api : ApiSemantics no_regex no_time config filters instances example_list example_match
unfolding run_filters
example_api = record {
  lists = λ root found h.
      let same : found ≡ keep (all_groups example_match root.and_groups) instances = cc in
      rw same (Perm.refl _);
  compares = (on_web, (on_db, (on_web_test, tt)));
}

get_and_filter_exact_example :
    Perm (instance_of "web" "production" ∷ []) (keep (satisfies no_regex no_time filters) instances)
get_and_filter_exact_example =
    get_and_filter_exact no_regex no_time config example_match filters instances example_list
      example_api null null get_and_filter_runs

abbrev created : ℕ → Struct
created t = record { name = "Created"; json_tag = none; field_value = time t } ∷ []

get_latest_created_runs :
    get_latest_created (created 3 ∷ created 8 ∷ created 5 ∷ []) "Created" ≡ ok (created 8 ∷ [])
unfolding get_latest_created scan_newest get_created_time get_and_validate_field_by_name
    field_by_name
get_latest_created_runs = refl

-- Versions of one number, by the number of their digits.
abbrev version : String → Struct
version s = record { name = "Version"; json_tag = some "version"; field_value = string s } ∷ []

abbrev one_number : String → Result String ℕ
one_number s = ok (count s)

get_latest_version_runs :
    get_latest_version one_number is_after (version "1" ∷ version "12" ∷ []) "Version"
    ≡ ok (some (version "12"))
unfolding get_latest_version scan_newest get_version get_and_validate_field_by_name field_by_name
get_latest_version_runs = refl

-- A name that is not computed yet is reported, with the names of the configuration.
unknown_is_reported :
    validate_string config false unknown ≡ some (non_filterable "" ("label" ∷ "tags" ∷ []))
unfolding validate_string get sort_by insert_by
unknown_is_reported = refl

validate_string-Reports_example :
    Reports config true (value "tags") (validate_string config true (value "tags"))
validate_string-Reports_example = validate_string-Reports config true (value "tags")
