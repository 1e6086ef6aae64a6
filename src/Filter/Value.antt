-- ===== src/Filter/Value.antt =====
-- struct.go, and normalizeValue of local_filter.go: the values that reflection reads from a response.
use Prim.Native.Char.{code}
use Prim.Native.Nat.{◌/◌, ◌%◌}
use Prim.Native.String.{◌++◌ as append}
use terraform_provider_linod.Prelude.{
  ℕ, zero, suc, ◌+◌, String, Bool, true, false, ◌&&◌, Option, none, some, List, [], ◌∷◌, Result, ok,
  err, leb, ltb, ◌==◌, nat_eq, string_eq, list_eq, if◌then◌else◌,
}
use terraform_provider_linod.Filter.{Diagnostic, missing_field, invalid_field_type}

-- A value behind `any`, by its `reflect.Kind`. A time is its instant; a float is its text under
-- `strconv.FormatFloat(_, 'f', 0, 64)`, which is all that the code reads of it; `other` is any kind
-- that the code does not print.
mutual
  pub data FieldValue : Type 0 where
    string : String → FieldValue
    int : Bool → ℕ → FieldValue
    bool : Bool → FieldValue
    float : String → FieldValue
    time : ℕ → FieldValue
    nil_pointer : FieldValue
    pointer : FieldValue → FieldValue
    slice : FieldValues → FieldValue
    other : FieldValue

  pub data FieldValues : Type 0 where
    end : FieldValues
    next : FieldValue → FieldValues → FieldValues

abbrev pub elements : FieldValues → List FieldValue
elements end = []
elements (next v vs) = v ∷ elements vs

pub record StructField : Type 0 where
  pub name : String
  pub json_tag : Option String
  pub field_value : FieldValue

-- A response struct: its fields in order, under distinct names.
abbrev pub Struct : Type 0
Struct = List StructField

-- The code points of a text, in lower case. Beyond ASCII the keywords and the field names of the
-- response structs hold no letters.
abbrev pub lower_code : ℕ → ℕ
lower_code c = if leb b'A' c && leb c b'Z' then c + 32 else c

unfoldable pub to_lower : String → List ℕ
to_lower String.[] = []
to_lower (String.◌∷◌ c s) = lower_code (code c) ∷ to_lower s

unfoldable pub codes : String → List ℕ
codes String.[] = []
codes (String.◌∷◌ c s) = code c ∷ codes s

-- `strings.ToLower(s) == word`, where only the ASCII letters of `s` have another lower case; Go lowers those of
-- other alphabets too, which names of fields and of matches do not have.
unfoldable pub lowers_to : String → String → Bool
unfolding to_lower codes
lowers_to s word = to_lower s == codes word

abbrev tag_matches : Option String → String → Bool
tag_matches none field = false
tag_matches (some tag) field = tag == field

unfoldable pub resolve_struct_field_by_json : Struct → String → Result Diagnostic StructField
resolve_struct_field_by_json [] field = err (missing_field field)
resolve_struct_field_by_json (current ∷ rest) field =
    if tag_matches current.json_tag field
    then ok current
    else if lowers_to current.name field
    then ok current
    else resolve_struct_field_by_json rest field

-- The field that was found is a field of the same struct, so `FieldByName` finds its value.
unfoldable pub resolve_struct_value_by_json : Struct → String → Result Diagnostic FieldValue
resolve_struct_value_by_json val field = elim (resolve_struct_field_by_json val field) [
  | err d ↦ err d
  | ok found ↦ ok found.field_value
]

abbrev digit : ℕ → String
digit zero = "0"
digit (suc zero) = "1"
digit (suc (suc zero)) = "2"
digit (suc (suc (suc zero))) = "3"
digit (suc (suc (suc (suc zero)))) = "4"
digit (suc (suc (suc (suc (suc zero))))) = "5"
digit (suc (suc (suc (suc (suc (suc zero)))))) = "6"
digit (suc (suc (suc (suc (suc (suc (suc zero))))))) = "7"
digit (suc (suc (suc (suc (suc (suc (suc (suc zero)))))))) = "8"
digit (suc (suc (suc (suc (suc (suc (suc (suc (suc n))))))))) = "9"

-- Twenty digits are enough for 64 bits.
unfoldable pub format_digits : ℕ → ℕ → String
format_digits zero n = ""
format_digits (suc fuel) n =
    let rest = format_digits fuel (n / 10) in
    if ltb n 10 then digit n else append rest (digit (n % 10))

-- `strconv.FormatInt(_, 10)` of a sign and a magnitude
unfoldable pub format_int : Bool → ℕ → String
unfolding format_digits
format_int negative n = if negative then append "-" (format_digits 20 n) else format_digits 20 n

-- `strconv.FormatBool`
abbrev pub format_bool : Bool → String
format_bool true = "true"
format_bool false = "false"

-- `format_time` is `time.Time.Format` at the provider's layout.
unfoldable pub normalize_value : (ℕ → String) → FieldValue → Result Diagnostic String
normalize_value format_time nil_pointer = ok ""
normalize_value format_time (pointer v) = normalize_value format_time v
normalize_value format_time (time t) = ok (format_time t)
normalize_value format_time (string s) = ok s
normalize_value format_time (int negative n) = ok (format_int negative n)
normalize_value format_time (bool b) = ok (format_bool b)
normalize_value format_time (float s) = ok s
normalize_value format_time (slice vs) = err invalid_field_type
normalize_value format_time other = err invalid_field_type
