-- ===== src/Volume/Merged.antt =====
-- What flattening and CopyFrom of linode/volume/framework_models.go keep of a plan.
use terraform_provider_linod.Prelude.{
  ℕ, String, Bool, true, false, ◌≡◌, refl, inr, Option, none, some, nat_eq, string_eq, list_eq,
  if◌then◌else◌,
}
use terraform_provider_linod.Helpers.Attributes.{
  Attribute, null, unknown, known, is_unknown, keep_or_update_value, attribute_eq,
  int_pointer_value_with_default,
}
use terraform_provider_linod.Volume.{Volume, Conversions, flatten_volume, copy_from}
use terraform_provider_linod.Volume.Update.{Model}
use terraform_provider_linod.Volume.Update.Says.{Refined, keep-Refined, Refined-trans}

abbrev pub IsSettled : {A : Type 0} → Attribute A → Type 0
IsSettled a = is_unknown a ≡ false

-- No attribute is unknown.
abbrev pub IsSaved : Model → Type 0
IsSaved m =
    IsSettled m.source_volume_id
    × IsSettled m.id
    × IsSettled m.label
    × IsSettled m.region
    × IsSettled m.size
    × IsSettled m.linode_id
    × IsSettled m.filesystem_path
    × IsSettled m.tags
    × IsSettled m.status
    × IsSettled m.encryption

-- Every attribute of the plan, but the identifier, is kept unless it was unknown.
abbrev pub Keeps : Model → Model → Type 0
Keeps plan m =
    Refined plan.source_volume_id m.source_volume_id
    × Refined plan.label m.label
    × Refined plan.region m.region
    × Refined plan.size m.size
    × Refined plan.linode_id m.linode_id
    × Refined plan.filesystem_path m.filesystem_path
    × Refined plan.tags m.tags
    × Refined plan.status m.status
    × Refined plan.encryption m.encryption

pub Keeps-refl : (plan : Model) → Keeps plan plan
Keeps-refl plan =
    (inr refl, inr refl, inr refl, inr refl, inr refl, inr refl, inr refl, inr refl, inr refl)

pub Keeps-trans : (a b c : Model) → Keeps a b → Keeps b c → Keeps a c
Keeps-trans a b c p q = (
  Refined-trans p.0 q.0,
  Refined-trans p.1 q.1,
  Refined-trans p.2 q.2,
  Refined-trans p.3 q.3,
  Refined-trans p.4 q.4,
  Refined-trans p.5 q.5,
  Refined-trans p.6 q.6,
  Refined-trans p.7 q.7,
  Refined-trans p.8 q.8,
)

pub flatten_volume-Keeps :
    (conversions : Conversions) (plan : Model) (v : Volume)
    → Keeps plan (flatten_volume conversions plan v true)
unfolding flatten_volume
flatten_volume-Keeps conversions plan v = (
  inr refl,
  keep-Refined plan.label _,
  keep-Refined plan.region _,
  keep-Refined plan.size _,
  keep-Refined plan.linode_id _,
  keep-Refined plan.filesystem_path _,
  keep-Refined plan.tags _,
  keep-Refined plan.status _,
  keep-Refined plan.encryption _,
)

pub copy_from-Keeps : (plan state : Model) → Keeps plan (copy_from plan state true)
unfolding copy_from
copy_from-Keeps plan state = (
  keep-Refined plan.source_volume_id _,
  keep-Refined plan.label _,
  keep-Refined plan.region _,
  keep-Refined plan.size _,
  keep-Refined plan.linode_id _,
  keep-Refined plan.filesystem_path _,
  keep-Refined plan.tags _,
  keep-Refined plan.status _,
  keep-Refined plan.encryption _,
)

pub keep-IsSettled :
    {A : Type 0} (a b : Attribute A) → IsSettled b → IsSettled (keep_or_update_value a b true)
unfolding keep_or_update_value
keep-IsSettled null b settled = refl
keep-IsSettled unknown b settled = settled
keep-IsSettled (known x) b settled = refl

pub copy_from-IsSaved : (plan state : Model) → IsSaved state → IsSaved (copy_from plan state true)
unfolding copy_from
copy_from-IsSaved plan state s = (
  keep-IsSettled plan.source_volume_id _ s.0,
  keep-IsSettled plan.id _ s.1,
  keep-IsSettled plan.label _ s.2,
  keep-IsSettled plan.region _ s.3,
  keep-IsSettled plan.size _ s.4,
  keep-IsSettled plan.linode_id _ s.5,
  keep-IsSettled plan.filesystem_path _ s.6,
  keep-IsSettled plan.tags _ s.7,
  keep-IsSettled plan.status _ s.8,
  keep-IsSettled plan.encryption _ s.9,
)

pub int_pointer-IsSettled : (o : Option ℕ) → IsSettled (int_pointer_value_with_default o)
int_pointer-IsSettled (some n) = refl
int_pointer-IsSettled none = refl

pub flatten_volume-IsSaved :
    (conversions : Conversions) (plan : Model) (v : Volume)
    → IsSettled plan.source_volume_id
    → IsSaved (flatten_volume conversions plan v true)
unfolding flatten_volume
flatten_volume-IsSaved conversions plan v source = (
  source,
  keep-IsSettled plan.id _ refl,
  keep-IsSettled plan.label _ refl,
  keep-IsSettled plan.region _ refl,
  keep-IsSettled plan.size _ refl,
  keep-IsSettled plan.linode_id _ (int_pointer-IsSettled v.linode_id),
  keep-IsSettled plan.filesystem_path _ refl,
  keep-IsSettled plan.tags _ refl,
  keep-IsSettled plan.status _ refl,
  keep-IsSettled plan.encryption _ refl,
)

pub with_id-Merges :
    (plan : Model) (id : Attribute String) (copied : Model) (empty : Bool)
    → IsSettled id
    → IsSaved copied
    → Keeps plan copied
    → let m = if empty then record copied { id = id } else copied in IsSaved m × Keeps plan m
with_id-Merges plan id copied true settled s keeps =
    ((s.0, settled, s.2, s.3, s.4, s.5, s.6, s.7, s.8, s.9), keeps)
with_id-Merges plan id copied false settled s keeps = (s, keeps)
