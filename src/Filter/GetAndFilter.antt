-- ===== src/Filter/GetAndFilter.antt =====
-- filter.go: GetAndFilter lists the elements through the API and filters the rest locally.
use terraform_provider_linod.Prelude.{ℕ, String, List, Result, ok, err, ◌>>=◌}
use terraform_provider_linod.Filter.{FwString, FilterModel, Config, Diagnostic, list_failed}
use terraform_provider_linod.Filter.Value.{Struct}
use terraform_provider_linod.Filter.Api.{RootFilter, construct_filter_string}
use terraform_provider_linod.Filter.Local.{Regex, apply_local_filtering}

-- A data source's `ListFunc`, which calls the API with the filter.
abbrev pub ListFunc : Type 0
ListFunc = RootFilter → Result String (List Struct)

abbrev pub listed : Result String (List Struct) → Result Diagnostic (List Struct)
listed (ok elems) = ok elems
listed (err e) = err (list_failed e)

unfoldable pub get_and_filter :
    Regex
    → (ℕ → String)
    → Config
    → List FilterModel
    → ListFunc
    → FwString
    → FwString
    → Result Diagnostic (List Struct)
get_and_filter regex format_time f filters list_func order order_by =
    construct_filter_string f filters order order_by >>= λ root.
    listed (list_func root) >>= λ elems. apply_local_filtering regex format_time f filters elems
