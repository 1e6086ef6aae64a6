-- ===== src/Filter.antt =====
-- linode/helper/frameworkfilter: the `filter`, `order` and `order_by` blocks of list data sources.
-- This file has the types; the children follow the files of the package.
pub mod Value
pub mod Api
pub mod Local
pub mod Latest
pub mod Validators
pub mod GetAndFilter
pub mod Split
pub mod Selection
pub mod Pipeline
mod Tests
use terraform_provider_linod.Prelude.{
  ℕ, String, Bool, true, false, Option, none, some, List, Result, Eq, ◌==◌, string_eq, ◌||◌,
}
use terraform_provider_linod.Prelude.Dict.{Dict, get}

-- A `types.String` of the plugin framework.
pub data FwString : Type 0 where
  null : FwString
  unknown : FwString
  value : String → FwString

-- `IsNull()`
abbrev pub is_null : FwString → Bool
is_null null = true
is_null _ = false

-- `ValueString()`
abbrev pub value_string : FwString → String
value_string (value s) = s
value_string _ = ""

pub record FilterModel : Type 0 where
  pub name : FwString
  pub values : List FwString
  pub match_by : FwString

-- What a `FilterTypeFunc` returns as `any`.
pub data FilterValue : Type 0 where
  text : String → FilterValue
  number : Bool → ℕ → FilterValue
  boolean : Bool → FilterValue

pub data Diagnostic : Type 0 where
  missing_field : String → Diagnostic
  invalid_field_type : Diagnostic
  regex_not_compiled : String → Diagnostic
  value_not_converted : String → Diagnostic
  list_failed : String → Diagnostic
  field_not_found : String → Diagnostic
  incorrect_type : String → Diagnostic
  version_not_parsed : String → Diagnostic
  panicked : Diagnostic

pub record FilterAttribute : Type 0 where
  pub api_filterable : Bool
  pub type_func : String → Result String FilterValue
  pub allow_order_override : Bool

abbrev pub Config : Type 0
Config = Dict String FilterAttribute

-- `f[name]` of a missing name is the zero attribute, which is not filterable. Its `TypeFunc` is nil,
-- and the code calls it only where `APIFilterable` holds.
unfoldable pub attribute : Config → String → FilterAttribute
attribute f name = elim (get name f) [
  | none ↦ record {
    api_filterable = false;
    type_func = λ s. Result.err "nil";
    allow_order_override = false;
  }
  | some a ↦ a
]

-- `isExactMatchFilter` of local_filter.go
unfoldable pub is_exact_match_filter : FilterModel → Bool
is_exact_match_filter filter = value_string filter.match_by == "exact" || is_null filter.match_by
