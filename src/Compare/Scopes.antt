-- ===== src/Compare/Scopes.antt =====
-- CompareScopes, and ValidateSubset.
use mathlib.Core.List.{Perm}
use terraform_provider_linod.Prelude.{String, ◌≡◌, ◌≢◌, ◌↔◌, ◌⊎◌, true, arith, string_eq, ==_iff}
use terraform_provider_linod.Compare.{compare_scopes, split_spaces}
use terraform_provider_linod.Compare.Multiset.{string_list_elements_equal_iff}

-- CompareScopes returns true exactly when both scopes are "*", or neither is and the scopes between
-- the spaces of one are a permutation of those of the other.
pub compare_scopes_iff :
    (s1 s2 : String)
    → (compare_scopes s1 s2 ≡ true) ↔ (
        ((s1 ≡ "*") × (s2 ≡ "*"))
        ⊎ ((s1 ≢ "*") × (s2 ≢ "*") × Perm (split_spaces s1) (split_spaces s2)))
unfolding compare_scopes
compare_scopes_iff s1 s2 = ground (
  arith,
  ==_iff s1 "*",
  ==_iff s2 "*",
  string_list_elements_equal_iff (split_spaces s1) (split_spaces s2),
)
