-- ===== src/Helpers/Attributes.antt =====
-- linode/helper/framework_data.go and default_value.go: the attributes of the plugin framework, which
-- are null, unknown or known, and how a flattened value meets the planned one.
use terraform_provider_linod.Prelude.{
  ℕ, Bool, true, false, not, ◌&&◌, ◌≡◌, ap, ◌↔◌, refl, Option, none, some, Eq, if◌then◌else◌,
}

pub data Attribute {ℓ} (A : Type ℓ) : Type ℓ where
  null unknown : Attribute A
  known : A → Attribute A

module _ {ℓ} {A : Type ℓ} where
  abbrev pub is_null : Attribute A → Bool
  is_null null = true
  is_null unknown = false
  is_null (known a) = false

  abbrev pub is_unknown : Attribute A → Bool
  is_unknown null = false
  is_unknown unknown = true
  is_unknown (known a) = false

  -- `ValueString` and the like: the zero value where none is known.
  abbrev pub value : A → Attribute A → A
  value zero_value null = zero_value
  value zero_value unknown = zero_value
  value zero_value (known a) = a

  unfoldable pub keep_or_update_value : Attribute A → Attribute A → Bool → Attribute A
  keep_or_update_value original updated preserve_known =
      if preserve_known && not (is_unknown original) then original else updated

  module _ ⦃e : Eq A⦄ where
    abbrev pub attribute_beq : Attribute A → Attribute A → Bool
    attribute_beq null null = true
    attribute_beq null unknown = false
    attribute_beq null (known b) = false
    attribute_beq unknown null = false
    attribute_beq unknown unknown = true
    attribute_beq unknown (known b) = false
    attribute_beq (known a) null = false
    attribute_beq (known a) unknown = false
    attribute_beq (known a) (known b) = e.same a b

    pub attribute_beq_iff : (a b : Attribute A) → (attribute_beq a b ≡ true) ↔ (a ≡ b)
    attribute_beq_iff null null = ((λ h. refl), (λ h. refl))
    attribute_beq_iff null unknown = ((λ h. cc), (λ h. cc))
    attribute_beq_iff null (known b) = ((λ h. cc), (λ h. cc))
    attribute_beq_iff unknown null = ((λ h. cc), (λ h. cc))
    attribute_beq_iff unknown unknown = ((λ h. refl), (λ h. refl))
    attribute_beq_iff unknown (known b) = ((λ h. cc), (λ h. cc))
    attribute_beq_iff (known a) null = ((λ h. cc), (λ h. cc))
    attribute_beq_iff (known a) unknown = ((λ h. cc), (λ h. cc))
    attribute_beq_iff (known a) (known b) =
        ((λ h. ap known ((e.same_iff a b).0 h)), (λ h. (e.same_iff a b).1 (cc)))

-- `Equal`
instance abbrev pub attribute_eq {ℓ} : {A : Type ℓ} ⦃e : Eq A⦄ → Eq (Attribute A)
attribute_eq = record { same = attribute_beq; same_iff = attribute_beq_iff }

abbrev pub int_pointer_value_with_default : Option ℕ → Attribute ℕ
int_pointer_value_with_default (some n) = known n
int_pointer_value_with_default none = known 0
