-- ===== src/Filter/Latest.antt =====
-- latest.go: the newest of the listed elements, by a time or by a version.
pub mod Newest
use terraform_provider_linod.Prelude.{
  ℕ, String, Bool, true, false, List, [], ◌∷◌, Option, none, some, Result, ok, err, ◌>>=◌, ltb,
  ◌==◌, string_eq, if◌then◌else◌,
}
use terraform_provider_linod.Filter.{
  Diagnostic, field_not_found, incorrect_type, version_not_parsed, panicked,
}
use terraform_provider_linod.Filter.Value.{
  FieldValue, nil_pointer, pointer, time, string, StructField, Struct,
}

unfoldable pub field_by_name : Struct → String → Option FieldValue
field_by_name [] attr = none
field_by_name (current ∷ rest) attr =
    if current.name == attr then some current.field_value else field_by_name rest attr

-- The loop over `reflect.Indirect`; a nil pointer gives the invalid `reflect.Value`.
abbrev pub dereference : FieldValue → FieldValue
dereference (pointer v) = dereference v
dereference v = v

unfoldable pub get_and_validate_field_by_name : Struct → String → Result Diagnostic FieldValue
get_and_validate_field_by_name elem attr = elim (field_by_name elem attr) [
  | none ↦ err (field_not_found attr)
  | some v ↦ ok (dereference v)
]

-- `val.Interface().(time.Time)`; `Interface` panics on the invalid value of a nil pointer.
abbrev pub as_time : String → FieldValue → Result Diagnostic ℕ
as_time attr (time t) = ok t
as_time attr nil_pointer = err panicked
as_time attr v = err (incorrect_type attr)

unfoldable pub get_created_time : String → Struct → Result Diagnostic ℕ
get_created_time attr elem = get_and_validate_field_by_name elem attr >>= as_time attr

module _ {V : Type 0} (new_version : String → Result String V) where
  abbrev pub parsed : Result String V → Result Diagnostic V
  parsed (ok v) = ok v
  parsed (err e) = err (version_not_parsed e)

  abbrev pub as_version : String → FieldValue → Result Diagnostic V
  as_version attr (string s) = parsed (new_version s)
  as_version attr v = err (incorrect_type attr)

  -- `new_version` is `NewVersion` of hashicorp/go-version.
  unfoldable pub get_version : String → Struct → Result Diagnostic V
  get_version attr elem = get_and_validate_field_by_name elem attr >>= as_version attr

module _ {K : Type 0} (key : Struct → Result Diagnostic K) (after : K → K → Bool) where
  -- The loop of both functions.
  unfoldable pub scan_newest : Struct → K → List Struct → Result Diagnostic Struct
  scan_newest newest newest_key [] = ok newest
  scan_newest newest newest_key (elem ∷ rest) =
      let kept = scan_newest newest newest_key rest in
      let replaced = λ (k : K). scan_newest elem k rest in
      elim (key elem) [ err d ↦ err d | ok k ↦ if after k newest_key then replaced k else kept ]

  unfoldable pub newest_of : List Struct → Result Diagnostic (Option Struct)
  newest_of [] = ok none
  newest_of (elem ∷ rest) =
      key elem >>= λ k. scan_newest elem k (elem ∷ rest) >>= λ newest. ok (some newest)

-- Go's `t.After(u)` on instants.
abbrev pub is_after : ℕ → ℕ → Bool
is_after t u = ltb u t

abbrev pub singleton : Option Struct → List Struct
singleton none = []
singleton (some e) = e ∷ []

unfoldable pub get_latest_created : List Struct → String → Result Diagnostic (List Struct)
unfolding newest_of
get_latest_created elems attr =
    newest_of (get_created_time attr) is_after elems >>= λ newest. ok (singleton newest)

-- `greater_than` is `(*Version).GreaterThan`.
module _ {V : Type 0} (new_version : String → Result String V) (greater_than : V → V → Bool) where
  unfoldable pub get_latest_version : List Struct → String → Result Diagnostic (Option Struct)
  unfolding newest_of
  get_latest_version elems attr = newest_of (get_version new_version attr) greater_than elems
