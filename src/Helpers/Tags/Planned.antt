-- ===== src/Helpers/Tags/Planned.antt =====
-- linode/helper/customdiffs/caseinsensitiveset.go: what the planned set has.
use mathlib.Core.Path.{subst}
use terraform_provider_linod.Prelude.{
  String, Bool, true, false, ◌≡◌, refl, sym, ap, ◌∙◌, ◌⊎◌, inl, inr, ◌↔◌, Option, none, some, List,
  [], ◌∷◌, arith, any, ◌==◌, ==_iff, string_eq, if◌then◌else◌, Bool-cases,
}
use terraform_provider_linod.Prelude.Dict.{Dict, get, put, get-put}
use terraform_provider_linod.Helpers.Tags.{
  no_entries, lowered, with_case, planned, compute_case_insensitive_planned_set,
}

abbrev pub has : String → List String → Bool
has tag tags = any (λ t. t == tag) tags

get_nothing : (key : String) → get key no_entries ≡ none
unfolding get
get_nothing key = refl

module _ (to_lower : String → String) where
  abbrev pub has_case_of : String → List String → Bool
  has_case_of tag tags = any (λ t. to_lower t == to_lower tag) tags

  abbrev Looked : String → List String → Option String → Option String → Type 0
  Looked key tags before r =
      ((o : String) × ((r ≡ some o) × ((has o tags ≡ true) × (to_lower o ≡ key))))
      ⊎ ((r ≡ before) × (any (λ t. to_lower t == key) tags ≡ false))

  module _ (key tag : String) (tags : List String) (before r : Option String) where
    Looked-more :
        Looked key tags (if to_lower tag == key then some tag else before) r
        → Looked key (tag ∷ tags) before r
    Looked-more (inl (o, (found, (within, same)))) =
        inl (o, (found, (ground (arith, within), same)))
    Looked-more (inr (found, missing)) = elim (Bool-cases (to_lower tag == key)) [
      | inl e ↦ inl (
        tag,
        (
          ground (arith, found, e),
          (ground (arith, ==_iff tag tag), (==_iff (to_lower tag) key).0 e),
        ),
      )
      | inr e ↦ inr (ground (arith, found, e), ground (arith, missing, e))
    ]

  get-lowered :
      (key : String) (tags : List String) (entries : Dict String String)
      → Looked key tags (get key entries) (get key (lowered to_lower entries tags))
  get-lowered key [] entries = inr (refl, refl)
  get-lowered key (tag ∷ tags) entries = Looked-more key tag tags (get key entries) _ (
      subst
        (λ b. Looked key tags b (get key (lowered to_lower (put (to_lower tag) tag entries) tags)))
        (get-put (to_lower tag) key tag entries)
        (get-lowered key tags (put (to_lower tag) tag entries)))

  any_of_has :
      (p : String → Bool) (tag : String) (tags : List String)
      → has tag tags ≡ true
      → p tag ≡ true
      → any p tags ≡ true
  any_of_has p tag [] within holds = absurd (ground (arith, within))
  any_of_has p tag (t ∷ tags) within holds = elim (Bool-cases (t == tag)) [
    | inl same ↦ rw ((==_iff t tag).0 same, holds) refl
    | inr other ↦ ground (arith, any_of_has p tag tags (ground (arith, within, other)) holds)
  ]

  module _ (old_set : List String) where
    -- What is planned for an element of the new set.
    abbrev pub kept : String → String
    kept new_tag = with_case (get (to_lower new_tag) (lowered to_lower no_entries old_set)) new_tag

    abbrev HasCase : String → Type 0
    HasCase new_tag =
        ((has (kept new_tag) old_set ≡ true) × (to_lower (kept new_tag) ≡ to_lower new_tag))
        ⊎ ((kept new_tag ≡ new_tag) × (has_case_of new_tag old_set ≡ false))

    kept-HasCase : (new_tag : String) → HasCase new_tag
    kept-HasCase new_tag = elim (get-lowered (to_lower new_tag) old_set no_entries) [
      | inl (o, (found, (within, same))) ↦
          let e = ap (λ r. with_case r new_tag) found in inl (rw e within, rw e same)
      | inr (found, missing) ↦
          inr (ap (λ r. with_case r new_tag) (found ∙ get_nothing (to_lower new_tag)), missing)
    ]

    -- The elements that a plan should have.
    abbrev pub IsPlanned : List String → String → Type 0
    IsPlanned new_set tag =
        ((has tag old_set ≡ true) × (has_case_of tag new_set ≡ true))
        ⊎ ((has tag new_set ≡ true) × (has_case_of tag old_set ≡ false))

    kept-IsPlanned :
        (new_set : List String) (new_tag : String) → IsPlanned (new_tag ∷ new_set) (kept new_tag)
    kept-IsPlanned new_set new_tag = elim (kept-HasCase new_tag) [
      | inl (within, same) ↦ inl (
        within,
        ground (arith, (==_iff (to_lower new_tag) (to_lower (kept new_tag))).1 (sym same)),
      )
      | inr (e, missing) ↦
          inr (ground (arith, (==_iff new_tag (kept new_tag)).1 (sym e)), rw e missing)
    ]

    IsPlanned-more :
        (new_set : List String) (new_tag tag : String)
        → IsPlanned new_set tag
        → IsPlanned (new_tag ∷ new_set) tag
    IsPlanned-more new_set new_tag tag (inl (within, same)) = inl (within, ground (arith, same))
    IsPlanned-more new_set new_tag tag (inr (within, missing)) =
        inr (ground (arith, within), missing)

    planned-IsPlanned :
        (new_set : List String) (tag : String)
        → has tag (planned to_lower (lowered to_lower no_entries old_set) new_set) ≡ true
        → IsPlanned new_set tag
    planned-IsPlanned [] tag h = absurd (ground (arith, h))
    planned-IsPlanned (new_tag ∷ new_set) tag h = elim (Bool-cases (kept new_tag == tag)) [
      | inl e ↦
          subst (IsPlanned (new_tag ∷ new_set)) ((==_iff (kept new_tag) tag).0 e)
            (kept-IsPlanned new_set new_tag)
      | inr e ↦
          IsPlanned-more new_set new_tag tag (planned-IsPlanned new_set tag (ground (arith, h, e)))
    ]

    -- No two elements differ in case only.
    abbrev pub IsApart : Type 0
    IsApart =
        (a b : String)
        → has a old_set ≡ true
        → has b old_set ≡ true
        → to_lower a ≡ to_lower b
        → a ≡ b

    module _ (apart : IsApart) (new_tag tag : String) where
      kept-old : has tag old_set ≡ true → to_lower new_tag ≡ to_lower tag → kept new_tag ≡ tag
      kept-old within same = elim (kept-HasCase new_tag) [
        | inl (kept_within, kept_same) ↦
            apart (kept new_tag) tag kept_within within (kept_same ∙ same)
        | inr (e, missing) ↦ absurd (
            ground (
              arith,
              missing,
              any_of_has (λ t. to_lower t == to_lower new_tag) tag old_set within
                  ((==_iff (to_lower tag) (to_lower new_tag)).1 (sym same)),
            ))
      ]

      kept-new : new_tag ≡ tag → has_case_of tag old_set ≡ false → kept new_tag ≡ tag
      kept-new same missing = elim (kept-HasCase new_tag) [
        | inl (kept_within, kept_same) ↦ absurd (
            ground (
              arith,
              missing,
              any_of_has (λ t. to_lower t == to_lower tag) (kept new_tag) old_set kept_within
                  ((==_iff (to_lower (kept new_tag)) (to_lower tag)).1
                    (kept_same ∙ ap to_lower same)),
            ))
        | inr (e, other) ↦ e ∙ same
      ]

    module _ (apart : IsApart) where
      IsPlanned-planned :
          (new_set : List String) (tag : String)
          → IsPlanned new_set tag
          → has tag (planned to_lower (lowered to_lower no_entries old_set) new_set) ≡ true
      IsPlanned-planned [] tag (inl (within, same)) = absurd (ground (arith, same))
      IsPlanned-planned [] tag (inr (within, missing)) = absurd (ground (arith, within))
      IsPlanned-planned (new_tag ∷ new_set) tag (inl (within, some_new)) =
          elim (Bool-cases (to_lower new_tag == to_lower tag)) [
            | inl e ↦
                rw
                  (kept-old apart new_tag tag within
                    ((==_iff (to_lower new_tag) (to_lower tag)).0 e))
                  (ground (arith, ==_iff tag tag))
            | inr e ↦
                ground
                  (arith, IsPlanned-planned new_set tag (inl (within, ground (arith, some_new, e))))
          ]
      IsPlanned-planned (new_tag ∷ new_set) tag (inr (within, missing)) =
          elim (Bool-cases (new_tag == tag)) [
            | inl e ↦
                rw (kept-new apart new_tag tag ((==_iff new_tag tag).0 e) missing)
                  (ground (arith, ==_iff tag tag))
            | inr e ↦
                ground
                  (arith, IsPlanned-planned new_set tag (inr (ground (arith, within, e), missing)))
          ]

      -- If no two old elements differ in case only, then the planned set has exactly these elements: the
      -- old ones of which the new set has a spelling, spelled as they were, and the new ones of which the
      -- old set has no spelling.
      pub compute_case_insensitive_planned_set_iff :
          (new_set : List String) (tag : String)
          → (has tag (compute_case_insensitive_planned_set to_lower old_set new_set) ≡ true) ↔ (
              ((has tag old_set ≡ true) × (has_case_of tag new_set ≡ true))
              ⊎ ((has tag new_set ≡ true) × (has_case_of tag old_set ≡ false)))
      unfolding compute_case_insensitive_planned_set
      compute_case_insensitive_planned_set_iff new_set tag =
          (planned-IsPlanned new_set tag, IsPlanned-planned new_set tag)
