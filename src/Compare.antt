-- ===== src/Compare.antt =====
-- linode/helper/compare.go: comparisons of slices that ignore the order of the elements.
pub mod Multiset
pub mod Sorted
pub mod Scopes
mod Tests
use Prim.Native.Char.{Char, code}
use terraform_provider_linod.Prelude.{
  ℕ, zero, suc, ◌+◌, ◌-◌, String, Bool, true, false, ◌&&◌, Option, none, some, List, [], ◌∷◌,
  length, is_empty, any, Slice, items, Eq, ◌==◌, ◌!=◌, nat_eq, string_eq, bool_eq, list_eq,
  option_eq, if◌then◌else◌,
}
use terraform_provider_linod.Prelude.Dict.{Dict, get, put}
use terraform_provider_linod.Prelude.TextOrder.{text_leb}

-- `freq[v]` of a `map[string]int`: a missing key reads as 0.
unfoldable pub frequency : String → Dict String ℕ → ℕ
frequency v freq = elim (get v freq) [ none ↦ 0 | some n ↦ n ]

-- `for _, v := range a { freq[v]++ }`
unfoldable pub tally : List String → Dict String ℕ → Dict String ℕ
tally [] freq = freq
tally (v ∷ a) freq = tally a (put v (frequency v freq + 1) freq)

-- `for _, v := range b { freq[v]--; if freq[v] < 0 { return false } }; return true`. The count falls
-- below 0 exactly when it was 0, and is not read again then, so it stays a natural number.
unfoldable pub drain : List String → Dict String ℕ → Bool
drain [] freq = true
drain (v ∷ b) freq =
    let rest = drain b (put v (frequency v freq - 1) freq) in
    if frequency v freq == 0 then false else rest

unfoldable pub string_list_elements_equal : List String → List String → Bool
string_list_elements_equal a b = if length a != length b then false else drain b (tally a [])

-- `slices.Contains`
unfoldable pub contains {ℓ} : {A : Type ℓ} ⦃e : Eq A⦄ → List A → A → Bool
contains xs v = any (λ x. v == x) xs

unfoldable pub validate_subset {ℓ} : {A : Type ℓ} ⦃e : Eq A⦄ → List A → List A → Bool
validate_subset superset [] = true
validate_subset superset (v ∷ subset) =
    if contains superset v then validate_subset superset subset else false

-- `sort.Slice` by the printed form of the elements, as an insertion sort.
unfoldable pub insert_by {ℓ} : {A : Type ℓ} → (A → String) → A → List A → List A
insert_by print x [] = x ∷ []
insert_by print x (y ∷ ys) =
    if text_leb (print x) (print y) then x ∷ y ∷ ys else y ∷ insert_by print x ys

unfoldable pub sort_by {ℓ} : {A : Type ℓ} → (A → String) → List A → List A
sort_by print [] = []
sort_by print (x ∷ xs) = insert_by print x (sort_by print xs)

abbrev sort_slice {ℓ} : {A : Type ℓ} → (A → String) → Slice A → Slice A
sort_slice print none = none
sort_slice print (some xs) = some (sort_by print xs)

-- `print` is `fmt.Sprintf("%v", _)` at the type of the elements.
unfoldable pub compare_slices {ℓ} :
    {A : Type ℓ} ⦃e : Eq A⦄ → (A → String) → Bool → Bool → Slice A → Slice A → Bool
compare_slices print ignore_nil unordered a b =
    if ignore_nil && is_empty (items a) && is_empty (items b)
    then true
    else if unordered
    then sort_slice print a == sort_slice print b
    else a == b

unfoldable pub compare_sets {ℓ} : {A : Type ℓ} ⦃e : Eq A⦄ → (A → String) → Slice A → Slice A → Bool
unfolding compare_slices
compare_sets print a b = compare_slices print true true a b

-- `TypedSliceToAny` turns nil into an empty slice, or keeps the elements: `slices.Collect` of nothing
-- is nil. Either way the elements stay, and `compare_sets` does not see the difference.
unfoldable pub compare_string_sets : List String → List String → Bool
unfolding compare_sets
compare_string_sets a b = compare_sets (λ s. s) (some a) (some b)

-- `strings.Split(s, " ")`: the pieces between single spaces, at least one.
abbrev push_char : List String → Char → List String
push_char [] c = []
push_char (piece ∷ rest) c = String.◌∷◌ c piece ∷ rest

unfoldable pub split_spaces : String → List String
split_spaces String.[] = "" ∷ []
split_spaces (String.◌∷◌ c s) =
    let rest = split_spaces s in if code c == b' ' then "" ∷ rest else push_char rest c

unfoldable pub compare_scopes : String → String → Bool
compare_scopes s1 s2 =
    if (s1 == "*") != (s2 == "*")
    then false
    else if (s1 == "*") && (s2 == "*")
    then true
    else string_list_elements_equal (split_spaces s1) (split_spaces s2)
