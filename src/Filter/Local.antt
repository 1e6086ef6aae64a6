-- ===== src/Filter/Local.antt =====
-- local_filter.go: filters that the provider applies to the listed elements itself. `regex` is
-- `regexp.Compile` with the compiled pattern's `MatchString`, `format_time` is `time.Time.Format`.
use text.Mathlib.Text.{starts_with}
use terraform_provider_linod.Prelude.{
  ℕ, String, Bool, true, false, ◌&&◌, ◌||◌, List, [], ◌∷◌, Result, ok, err, any, ◌==◌, string_eq,
  if◌then◌else◌,
}
use terraform_provider_linod.Filter.{
  FwString, FilterModel, Config, Diagnostic, regex_not_compiled, attribute, is_exact_match_filter,
  value_string,
}
use terraform_provider_linod.Filter.Value.{
  FieldValue, FieldValues, end, next, slice, Struct, normalize_value, lowers_to,
  resolve_struct_value_by_json,
}

abbrev pub Regex : Type 0
Regex = String → Result String (String → Bool)

-- `strings.Contains`
unfoldable pub text_contains : String → String → Bool
text_contains String.[] t = starts_with "" t
text_contains (String.◌∷◌ c s) t = starts_with (String.◌∷◌ c s) t || text_contains s t

unfoldable pub check_filter_exact : List FwString → String → Bool
check_filter_exact values actual = any (λ v. actual == value_string v) values

unfoldable pub check_filter_sub_string : List FwString → String → Bool
check_filter_sub_string values actual = any (λ v. text_contains actual (value_string v)) values

unfoldable pub check_filter_regex : Regex → List FwString → String → Result Diagnostic Bool
check_filter_regex regex [] actual = ok false
check_filter_regex regex (v ∷ values) actual =
    let rest = check_filter_regex regex values actual in
    elim (regex (value_string v)) [
      | err e ↦ err (regex_not_compiled e)
      | ok matches ↦ if matches actual then ok true else rest
    ]

-- The `switch` on `match_by`.
unfoldable pub run_check : Regex → FilterModel → String → Result Diagnostic Bool
run_check regex filter actual =
    let by = value_string filter.match_by in
    if lowers_to by "exact" || lowers_to by ""
    then ok (check_filter_exact filter.values actual)
    else if lowers_to by "substring" || lowers_to by "sub"
    then ok (check_filter_sub_string filter.values actual)
    else if lowers_to by "regex" || lowers_to by "re"
    then check_filter_regex regex filter.values actual
    else ok false

unfoldable pub check_scalar :
    Regex → (ℕ → String) → FieldValue → FilterModel → Result Diagnostic Bool
check_scalar regex format_time field filter = elim (normalize_value format_time field) [
  | err d ↦ err d
  | ok actual ↦ run_check regex filter actual
]

unfoldable mutual
  pub check_field_matches_filter :
      Regex → (ℕ → String) → FieldValue → FilterModel → Result Diagnostic Bool
  check_field_matches_filter regex format_time (slice vs) filter =
      check_elements regex format_time vs filter
  check_field_matches_filter regex format_time field filter =
      check_scalar regex format_time field filter

  -- The loop over the elements of a slice: the first match, or the first error, ends it.
  pub check_elements : Regex → (ℕ → String) → FieldValues → FilterModel → Result Diagnostic Bool
  check_elements regex format_time end filter = ok false
  check_elements regex format_time (next v vs) filter =
      let rest = check_elements regex format_time vs filter in
      elim (check_field_matches_filter regex format_time v filter) [
        | err d ↦ err d
        | ok matched ↦ if matched then ok true else rest
      ]

-- The guard of `matchesFilter`: the filter was sent to the API.
unfoldable pub is_sent_to_api : Config → FilterModel → Bool
is_sent_to_api f filter =
    (attribute f (value_string filter.name)).api_filterable && is_exact_match_filter filter

unfoldable pub check_filter : Regex → (ℕ → String) → FilterModel → Struct → Result Diagnostic Bool
check_filter regex format_time filter elem =
    elim (resolve_struct_value_by_json elem (value_string filter.name)) [
      | err d ↦ err d
      | ok field ↦ check_field_matches_filter regex format_time field filter
    ]

unfoldable pub matches_filter :
    Regex → (ℕ → String) → Config → List FilterModel → Struct → Result Diagnostic Bool
matches_filter regex format_time f [] elem = ok true
matches_filter regex format_time f (filter ∷ filter_set) elem =
    let rest = matches_filter regex format_time f filter_set elem in
    if is_sent_to_api f filter then rest else elim (check_filter regex format_time filter elem) [
      | err d ↦ err d
      | ok matched ↦ if matched then rest else ok false
    ]

-- `if d != nil { return nil, d }; if !match { continue }; result = append(result, elem)`
abbrev pub append_match :
    Struct
    → Result Diagnostic Bool
    → Result Diagnostic (List Struct)
    → Result Diagnostic (List Struct)
append_match elem (err d) later = err d
append_match elem (ok false) later = later
append_match elem (ok true) (err d) = err d
append_match elem (ok true) (ok found) = ok (elem ∷ found)

-- An error at a later element discards what was found before it, as `return nil, d` does.
unfoldable pub apply_local_filtering :
    Regex → (ℕ → String) → Config → List FilterModel → List Struct → Result Diagnostic (List Struct)
apply_local_filtering regex format_time f filter_set [] = ok []
apply_local_filtering regex format_time f filter_set (elem ∷ rest) =
    let later = apply_local_filtering regex format_time f filter_set rest in
    append_match elem (matches_filter regex format_time f filter_set elem) later
