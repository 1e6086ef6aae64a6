-- ===== src/Helpers/Tags.antt =====
-- linode/helper/customdiffs/caseinsensitiveset.go: a planned set that takes no notice of case. A set is
-- the list of what is added to it; strings.ToLower is an argument.
pub mod Planned
use terraform_provider_linod.Prelude.{String, Option, none, some, List, [], ◌∷◌, string_eq}
use terraform_provider_linod.Prelude.Dict.{Dict, get, put}

abbrev pub no_entries : Dict String String
no_entries = []

abbrev pub with_case : Option String → String → String
with_case (some old_tag_with_case) new_tag = old_tag_with_case
with_case none new_tag = new_tag

module _ (to_lower : String → String) where
  abbrev pub lowered : Dict String String → List String → Dict String String
  lowered entries [] = entries
  lowered entries (old_tag ∷ tags) = lowered (put (to_lower old_tag) old_tag entries) tags

  abbrev pub planned : Dict String String → List String → List String
  planned entries [] = []
  planned entries (new_tag ∷ tags) =
      with_case (get (to_lower new_tag) entries) new_tag ∷ planned entries tags

  unfoldable pub compute_case_insensitive_planned_set : List String → List String → List String
  compute_case_insensitive_planned_set old_set new_set =
      planned (lowered no_entries old_set) new_set
