-- ===== src/Volume/Update/Says.antt =====
-- What a plan or a state says of a volume, attribute by attribute, and how flattening fills it in.
use mathlib.Core.Path.{subst}
use terraform_provider_linod.Prelude.{
  ℕ, true, ◌≡◌, refl, sym, ◌∙◌, ◌⊎◌, inl, inr, Option, none, some, ◌==◌, ==_iff, nat_eq, string_eq,
  list_eq, Eq,
}
use terraform_provider_linod.Helpers.Attributes.{
  Attribute, null, unknown, known, keep_or_update_value, value, attribute_eq,
}
use terraform_provider_linod.Volume.{Volume, VolumeResourceModel, Conversions, flatten_volume}
use terraform_provider_linod.Volume.Semantics.{View}
use terraform_provider_linod.Volume.Update.{Model}

-- A known attribute says what a volume has.
abbrev pub Says : {A : Type 0} → Attribute A → A → Type 0
Says null v = Unit
Says unknown v = Unit
Says (known a) v = v ≡ a

-- Where the volume is attached: it is detached where the attribute is null, and may be where it is 0.
abbrev pub SaysLinode : Attribute ℕ → Option ℕ → Type 0
SaysLinode null v = v ≡ none
SaysLinode unknown v = Unit
SaysLinode (known n) v = (v ≡ some n) ⊎ ((n ≡ 0) × (v ≡ none))

abbrev pub Shows : VolumeResourceModel → View → Type 0
Shows m v =
    Says m.size v.size
    × Says m.label v.label
    × Says m.tags v.tags
    × SaysLinode m.linode_id v.linode_id

-- An attribute that flattening may have filled in.
abbrev pub Refined : {A : Type 0} → Attribute A → Attribute A → Type 0
Refined planned now = (planned ≡ unknown) ⊎ (now ≡ planned)

pub keep-Refined :
    {A : Type 0} (planned updated : Attribute A)
    → Refined planned (keep_or_update_value planned updated true)
unfolding keep_or_update_value
keep-Refined null updated = inr refl
keep-Refined unknown updated = inl refl
keep-Refined (known a) updated = inr refl

pub Refined-trans : {A : Type 0} {a b c : Attribute A} → Refined a b → Refined b c → Refined a c
Refined-trans (inl e) r = inl e
Refined-trans (inr e) (inl f) = inl (sym e ∙ f)
Refined-trans (inr e) (inr f) = inr (f ∙ e)

pub Says-Refined : {A : Type 0} (a b : Attribute A) (v : A) → Refined a b → Says b v → Says a v
Says-Refined a b v (inl e) says = rw e tt
Says-Refined a b v (inr e) says = subst (λ x. Says x v) e says

pub SaysLinode-Refined :
    (a b : Attribute ℕ) (v : Option ℕ) → Refined a b → SaysLinode b v → SaysLinode a v
SaysLinode-Refined a b v (inl e) says = rw e tt
SaysLinode-Refined a b v (inr e) says = subst (λ x. SaysLinode x v) e says

pub Says-value : {A : Type 0} (zero_value : A) (a : Attribute A) → Says a (value zero_value a)
Says-value zero_value null = tt
Says-value zero_value unknown = tt
Says-value zero_value (known a) = refl

pub Says-equal :
    {A : Type 0} ⦃eq : Eq A⦄ (a b : Attribute A) (v : A) → (a == b) ≡ true → Says a v → Says b v
Says-equal a b v e says = subst (λ x. Says x v) ((==_iff a b).0 e) says

abbrev pub IsFrom : Model → Model → Type 0
IsFrom plan p =
    Refined plan.label p.label × Refined plan.tags p.tags × Refined plan.linode_id p.linode_id

pub same-IsFrom : (plan : Model) → IsFrom plan plan
same-IsFrom plan = (inr refl, inr refl, inr refl)

pub flattened-IsFrom :
    (conversions : Conversions) (plan : Model) (v : Volume)
    → IsFrom plan (flatten_volume conversions plan v true)
unfolding flatten_volume
flattened-IsFrom conversions plan v =
    (keep-Refined plan.label _, keep-Refined plan.tags _, keep-Refined plan.linode_id _)
