-- ===== src/Helpers/Tests.antt =====
-- Retries and conversions, at concrete inputs.
use terraform_provider_linod.Prelude.{
  String, false, [], ◌∷◌, ◌⊎◌, sym, ◌∙◌, ◌==◌, ==_iff, string_eq, if◌then◌else◌, arith, zero, suc,
  true, ◌≡◌, refl, ◌↔◌, none, some, ok, err,
}
use terraform_provider_linod.Helpers.Tags.{compute_case_insensitive_planned_set}
use terraform_provider_linod.Helpers.Tags.Planned.{
  has, has_case_of, compute_case_insensitive_planned_set_iff,
}
use terraform_provider_linod.Prelude.Dict.{get, put}
use terraform_provider_linod.Helpers.Retries.{
  RetryFunc, IsRun, retry_from, with_retries, with_retries-IsRun,
}
use terraform_provider_linod.Helpers.Numbers.{
  pos, negsuc, convert, out_of_range, safe_int_to_int32, rounder,
}

-- The third attempt succeeds.
abbrev third_time : RetryFunc
third_time zero = some (true, "not ready")
third_time (suc zero) = some (true, "not ready")
third_time (suc (suc n)) = none

third : with_retries 5 third_time ≡ (ok tt, 3)
unfolding with_retries retry_from
third = refl

two_are_too_few : with_retries 2 third_time ≡ (err "failed after ", 2)
unfolding with_retries retry_from
two_are_too_few = refl

with_retries-IsRun_example : IsRun 5 0 third_time (with_retries 5 third_time)
with_retries-IsRun_example = with_retries-IsRun 5 third_time

smallest : safe_int_to_int32 (negsuc 2147483647) ≡ ok (negsuc 2147483647)
unfolding safe_int_to_int32 convert out_of_range
smallest = refl

too_small : safe_int_to_int32 (negsuc 2147483648) ≡ err "int value is out of range for int32"
unfolding safe_int_to_int32 out_of_range
too_small = refl

-- The conversion alone wraps.
wraps : convert 2147483648 (pos 2147483648) ≡ negsuc 2147483647
unfolding convert
wraps = refl

rounds_up : rounder 31 ≡ 120
unfolding rounder
rounds_up = refl

abbrev to_lower : String → String
to_lower tag = if tag == "fOO" then "foo" else if tag == "Bar" then "bar" else tag

-- An old tag keeps its case, and a tag that is new is added.
old_case_is_kept :
    compute_case_insensitive_planned_set to_lower ("foo" ∷ "Bar" ∷ []) ("fOO" ∷ "bar" ∷ "wow" ∷ [])
    ≡ "foo" ∷ "Bar" ∷ "wow" ∷ []
unfolding compute_case_insensitive_planned_set get put
old_case_is_kept = refl

only_Bar : (a : String) → has a ("Bar" ∷ []) ≡ true → "Bar" ≡ a
only_Bar a within = (==_iff "Bar" a).0 (ground (arith, within))

compute_case_insensitive_planned_set_iff_example :
    (has "Bar" (compute_case_insensitive_planned_set to_lower ("Bar" ∷ []) ("bar" ∷ "wow" ∷ []))
      ≡ true)
    ↔ (((has "Bar" ("Bar" ∷ []) ≡ true) × (has_case_of to_lower "Bar" ("bar" ∷ "wow" ∷ []) ≡ true))
        ⊎ ((has "Bar" ("bar" ∷ "wow" ∷ []) ≡ true)
            × (has_case_of to_lower "Bar" ("Bar" ∷ []) ≡ false)))
compute_case_insensitive_planned_set_iff_example =
    compute_case_insensitive_planned_set_iff to_lower ("Bar" ∷ [])
      (λ a b in_a in_b same. sym (only_Bar a in_a) ∙ only_Bar b in_b) ("bar" ∷ "wow" ∷ []) "Bar"
