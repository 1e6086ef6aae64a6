-- ===== src/Filter/Selection.antt =====
-- Which elements the local filters keep.
use mathlib.Core.Path.{subst}
use terraform_provider_linod.Prelude.{
  ℕ, String, Bool, true, false, ◌&&◌, ◌||◌, ◌≡◌, ◌≢◌, ◌⊎◌, ◌++◌, Bool-cases, refl, sym, ◌∙◌, ◌↔◌,
  ap, Result-cases, List, [], ◌∷◌, arith, ok, err, Result, inl, inr, keep, All, if◌then◌else◌, IsOk,
}
use terraform_provider_linod.Prelude.Alls.{All-map}
use terraform_provider_linod.Filter.{FilterModel, Config, Diagnostic}
use terraform_provider_linod.Filter.Value.{Struct}
use terraform_provider_linod.Filter.Local.{
  Regex, is_sent_to_api, check_filter, matches_filter, append_match, apply_local_filtering,
}

abbrev pub is_match : Result Diagnostic Bool → Bool
is_match (ok b) = b
is_match (err d) = false

append_match_inv :
    (e : Struct) (m : Result Diagnostic Bool) (later : Result Diagnostic (List Struct))
    (found : List Struct)
    → append_match e m later ≡ ok found
    → (b : Bool) × (rest : List Struct) × (m ≡ ok b)
      × (later ≡ ok rest)
      × (found ≡ (if b then e ∷ rest else rest))
append_match_inv e (err d) later found h = cc
append_match_inv e (ok false) later found h = (false, found, refl, h, refl)
append_match_inv e (ok true) (err d) found h = cc
append_match_inv e (ok true) (ok rest) found h = (true, rest, refl, refl, cc)

module _ (regex : Regex) (format_time : ℕ → String) (f : Config) where
  -- What the local filters ask of an element: each that was not sent to the API matches.
  unfoldable pub passes_locally : List FilterModel → Struct → Bool
  passes_locally [] elem = true
  passes_locally (filter ∷ filter_set) elem =
      (is_sent_to_api f filter || is_match (check_filter regex format_time filter elem))
      && passes_locally filter_set elem

  pub is_match-matches_filter :
      (filter_set : List FilterModel) (elem : Struct)
      → is_match (matches_filter regex format_time f filter_set elem)
        ≡ passes_locally filter_set elem
  unfolding matches_filter passes_locally
  is_match-matches_filter [] elem = refl
  is_match-matches_filter (filter ∷ filter_set) elem =
      ground (arith, is_match-matches_filter filter_set elem)

  apply_local_filtering_sound :
      (filter_set : List FilterModel) (elems : List Struct) {found : List Struct}
      → apply_local_filtering regex format_time f filter_set elems ≡ ok found
      → (found ≡ keep (passes_locally filter_set) elems)
        × All (λ e. IsOk (matches_filter regex format_time f filter_set e)) elems
  unfolding apply_local_filtering
  apply_local_filtering_sound filter_set [] h = (cc, tt)
  apply_local_filtering_sound filter_set (e ∷ elems) {found} h =
      let m = matches_filter regex format_time f filter_set e in
      let (b, rest, em, el, ef) = append_match_inv e m _ found h in
      let (eq, fine) = apply_local_filtering_sound filter_set elems el in
      (ground (arith, is_match-matches_filter filter_set e, em, ef, eq), (rw em tt, fine))

  apply_local_filtering_complete :
      (filter_set : List FilterModel) (elems : List Struct)
      → All (λ e. IsOk (matches_filter regex format_time f filter_set e)) elems
      → apply_local_filtering regex format_time f filter_set elems
        ≡ ok (keep (passes_locally filter_set) elems)
  unfolding apply_local_filtering
  apply_local_filtering_complete filter_set [] h = refl
  apply_local_filtering_complete filter_set (e ∷ elems) (here, later) =
      elim (Result-cases (matches_filter regex format_time f filter_set e)) [
        | inl (b, em) ↦ ground (
          arith,
          em,
          is_match-matches_filter filter_set e,
          apply_local_filtering_complete filter_set elems later,
        )
        | inr (d, em) ↦ absurd (rw em at here)
      ]

  -- A filter that the local pass has nothing against: it was sent to the API, or it matches.
  abbrev pub Holds : FilterModel → Struct → Type 0
  Holds filter elem =
      (is_sent_to_api f filter ≡ true) ⊎ (check_filter regex format_time filter elem ≡ ok true)

  -- No filter is reached and fails: where all filters before it hold, it is not checked locally, or its
  -- check gives no error.
  abbrev pub NeverFails : List FilterModel → Struct → Type 0
  NeverFails filter_set elem =
      (before after : List FilterModel) (filter : FilterModel) (d : Diagnostic)
      → filter_set ≡ before ++ (filter ∷ after)
      → All (λ g. Holds g elem) before
      → is_sent_to_api f filter ≡ false
      → check_filter regex format_time filter elem ≢ err d

  failing-matches_filter :
      (before after : List FilterModel) (filter : FilterModel) (elem : Struct) (d : Diagnostic)
      → All (λ g. Holds g elem) before
      → is_sent_to_api f filter ≡ false
      → check_filter regex format_time filter elem ≡ err d
      → matches_filter regex format_time f (before ++ (filter ∷ after)) elem ≡ err d
  unfolding matches_filter
  failing-matches_filter [] after filter elem d holds local e = rw (local, e) refl
  failing-matches_filter (g ∷ before) after filter elem d (inl sent, holds) local e =
      rw sent (failing-matches_filter before after filter elem d holds local e)
  failing-matches_filter (g ∷ before) after filter elem d (inr matched, holds) local e =
      elim (Bool-cases (is_sent_to_api f g)) [
        | inl sent ↦ rw sent (failing-matches_filter before after filter elem d holds local e)
        | inr unsent ↦
            rw (unsent, matched) (failing-matches_filter before after filter elem d holds local e)
      ]

  IsOk-NeverFails :
      (filter_set : List FilterModel) (elem : Struct)
      → IsOk (matches_filter regex format_time f filter_set elem)
      → NeverFails filter_set elem
  IsOk-NeverFails filter_set elem fine before after filter d same holds local e =
      subst IsOk
        (subst (λ fs. matches_filter regex format_time f fs elem ≡ err d) (sym same)
          (failing-matches_filter before after filter elem d holds local e))
        fine

  NeverFails-tail :
      (g : FilterModel) (filter_set : List FilterModel) (elem : Struct)
      → Holds g elem
      → NeverFails (g ∷ filter_set) elem
      → NeverFails filter_set elem
  NeverFails-tail g filter_set elem holds never before after filter d same rest =
      never (g ∷ before) after filter d (ap (λ fs. g ∷ fs) same) (holds, rest)

  NeverFails-IsOk :
      (filter_set : List FilterModel) (elem : Struct)
      → NeverFails filter_set elem
      → IsOk (matches_filter regex format_time f filter_set elem)
  unfolding matches_filter
  NeverFails-IsOk [] elem never = tt
  NeverFails-IsOk (g ∷ filter_set) elem never = elim (Bool-cases (is_sent_to_api f g)) [
    | inl sent ↦
        rw sent
          (NeverFails-IsOk filter_set elem (NeverFails-tail g filter_set elem (inl sent) never))
    | inr unsent ↦ elim (Result-cases (check_filter regex format_time g elem)) [
      | inl (true, matched) ↦
          rw (unsent, matched)
            (NeverFails-IsOk filter_set elem
              (NeverFails-tail g filter_set elem (inr matched) never))
      | inl (false, missed) ↦ rw (unsent, missed) tt
      | inr (d, e) ↦ absurd (never [] filter_set g d refl tt unsent e)
    ]
  ]

  -- Local filtering returns `found` without an error exactly when `found` is, in order, the elements
  -- that every filter not sent to the API matches, and on no element a filter fails that is reached:
  -- one that is not sent to the API, after filters that were sent or match.
  pub apply_local_filtering_iff :
      (filter_set : List FilterModel) (elems found : List Struct)
      → (apply_local_filtering regex format_time f filter_set elems ≡ ok found)
        ↔ ((found ≡ keep (passes_locally filter_set) elems) × All (NeverFails filter_set) elems)
  apply_local_filtering_iff filter_set elems found = (
    λ h.
        let p = apply_local_filtering_sound filter_set elems h in
        (p.0, All-map _ _ elems (IsOk-NeverFails filter_set) p.1),
    λ p.
        apply_local_filtering_complete filter_set elems
          (All-map _ _ elems (NeverFails-IsOk filter_set) p.1)
        ∙ ap ok (sym p.0),
  )
