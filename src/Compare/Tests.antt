-- ===== src/Compare/Tests.antt =====
-- Runs of the comparisons, and their theorems at concrete inputs.
use mathlib.Core.List.{Perm}
use terraform_provider_linod.Prelude.{◌≡◌, ◌↔◌, refl, true, false, [], ◌∷◌, String}
use terraform_provider_linod.Compare.{
  string_list_elements_equal, compare_string_sets, compare_scopes, split_spaces, drain, frequency,
  tally, sort_by, insert_by,
}
use terraform_provider_linod.Prelude.Dict.{get, put}
use terraform_provider_linod.Compare.Multiset.{string_list_elements_equal_iff}

string_list_elements_equal_iff_example :
    (string_list_elements_equal ("a" ∷ "b" ∷ "a" ∷ []) ("a" ∷ "a" ∷ "b" ∷ []) ≡ true)
    ↔ Perm {A = String} ("a" ∷ "b" ∷ "a" ∷ []) ("a" ∷ "a" ∷ "b" ∷ [])
string_list_elements_equal_iff_example =
    string_list_elements_equal_iff ("a" ∷ "b" ∷ "a" ∷ []) ("a" ∷ "a" ∷ "b" ∷ [])

compare_runs :
    (string_list_elements_equal ("a" ∷ "b" ∷ []) ("a" ∷ "a" ∷ []) ≡ false)
    × (compare_string_sets ("b" ∷ "a" ∷ []) ("a" ∷ "b" ∷ []) ≡ true)
    × (compare_scopes "linodes:* ips:*" "ips:* linodes:*" ≡ true)
    × (compare_scopes "*" "ips:*" ≡ false)
unfolding string_list_elements_equal compare_string_sets compare_scopes split_spaces drain frequency
    get tally put sort_by insert_by
compare_runs = (refl, refl, refl, refl)
