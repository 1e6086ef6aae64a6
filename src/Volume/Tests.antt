-- ===== src/Volume/Tests.antt =====
-- The volume resource, at concrete inputs.
mod Refresh
use terraform_provider_linod.Prelude.Runs.{Every, after, explained}
use terraform_provider_linod.Prelude.{
  ℕ, String, ◌≡◌, refl, ap, sym, ◌∙◌, ◌⊎◌, inl, Option, none, some, List, [], ◌∷◌, Result, ok, err,
  string_eq, nat_eq, list_eq, ◌==◌, if◌then◌else◌,
}
use terraform_provider_linod.Helpers.Attributes.{null, unknown, known, keep_or_update_value}
use terraform_provider_linod.Volume.{
  Volume, VolumeResourceModel, get_volume, clone_volume, create_volume, wait_for_volume_active,
  update_volume, resize_volume, attach_volume, detach_volume, wait_for_volume_linode_id,
  delete_volume, History, Client, Conversions, flatten_volume, copy_from, handle_resize,
  detach_volume_and_wait,
}
use terraform_provider_linod.Volume.Create.{
  create, create_volume_from_source, clone_check, then_step, kept,
}
use terraform_provider_linod.Volume.Create.Kept.{subject, created, AnswersSubject}
use terraform_provider_linod.Volume.Create.Tracked.{Lost, create_tracks}
use terraform_provider_linod.Volume.Semantics.{View, VolumeSemantics, retagged}
use terraform_provider_linod.Volume.Update.{update, delete}
use terraform_provider_linod.Volume.Update.Says.{Shows}
use terraform_provider_linod.Volume.Update.Reached.{update_reaches}
use terraform_provider_linod.Volume.Update.Detached.{WhileDetached, update_and_delete_detached}
use terraform_provider_linod.Volume.Merged.{IsSaved, Keeps}
use terraform_provider_linod.Volume.Saved.{create-update-IsSaved}

abbrev subject_or : ℕ → Option ℕ → ℕ
subject_or n none = n
subject_or n (some m) = m

abbrev pub volume_with : ℕ → Volume
volume_with id = record {
  id = id;
  label = "data";
  region = "eu";
  size = 20;
  encryption = "enabled";
  linode_id = none;
  filesystem_path = "";
  tags = [];
  status = "active";
}

abbrev pub client : Client
client = record {
  acts = λ c h. ok tt;
  answers_volume = λ c h. ok (volume_with (subject_or 7 (subject c)));
}

abbrev pub conversions : Conversions
conversions = record {
  itoa = λ n. if n == 7 then "7" else "other";
  atoi = λ s. if s == "7" then ok 7 else err "atoi";
  elements_as = λ a. elim a [ null ↦ ok [] | unknown ↦ err "unknown" | known t ↦ ok t ];
}

abbrev pub id_of : Result String Volume → ℕ
id_of (ok v) = v.id
id_of (err e) = 0

answers : AnswersSubject client
answers c n h v e f = sym (ap id_of f) ∙ ap (subject_or 7) e

abbrev pub view : History → View
view [] = record { size = 20; label = "data"; tags = []; linode_id = some 3 }
view (resize_volume n s ∷ h) = record (view h) { size = s }
view (update_volume n o ∷ h) = record (view h) {
  label = o.label;
  tags = retagged o.tags (view h).tags;
}
view (detach_volume n ∷ h) = record (view h) { linode_id = none }
view (attach_volume n l ∷ h) = record (view h) { linode_id = some l }
view (_ ∷ h) = view h

semantics : VolumeSemantics client 7 view
semantics = record {
  resized = λ n h a v e f. (refl, sym (ap id_of f));
  updated = λ o h v e. refl;
  detached = λ h a v e f. refl;
  attached = λ n h w v e f. refl;
}

abbrev pub state : VolumeResourceModel
state = record {
  source_volume_id = null;
  id = known "7";
  label = known "data";
  region = known "eu";
  size = known 20;
  linode_id = known 3;
  filesystem_path = known "";
  tags = known [];
  status = known "active";
  encryption = known "enabled";
}

-- A plan that enlarges the volume, gives it a tag and moves it to another instance.
abbrev pub plan : VolumeResourceModel
plan = record state {
  size = known 40;
  tags = known ("db" ∷ []);
  linode_id = known 4;
  status = unknown;
}

updated_calls :
    (update client conversions plan state []).1
    ≡ wait_for_volume_linode_id 7 (some 4)
      ∷ attach_volume 7 4
      ∷ wait_for_volume_linode_id 7 none
      ∷ detach_volume 7
      ∷ update_volume 7 (record { label = "data"; tags = some ("db" ∷ []) })
      ∷ wait_for_volume_active 7
      ∷ resize_volume 7 40
      ∷ []
unfolding update handle_resize detach_volume_and_wait after explained flatten_volume
    keep_or_update_value
updated_calls = refl

abbrev pub saved_state : VolumeResourceModel
saved_state = record plan { status = known "active" }

update_saves : (update client conversions plan state []).0 ≡ ok saved_state
unfolding update handle_resize detach_volume_and_wait after explained flatten_volume copy_from
    keep_or_update_value
update_saves = refl

pub reads : (t : List String) → conversions.elements_as (known t) ≡ ok t
reads t = refl

update_reaches_example : Shows plan (view (update client conversions plan state []).1)
update_reaches_example =
    update_reaches semantics conversions reads plan state []
      (update client conversions plan state []).1 saved_state refl (refl, refl, refl, inl refl)
      (ap (λ r. (r, (update client conversions plan state []).1)) update_saves)

update_and_delete_detached_example :
    Every (λ c h. WhileDetached view c h) (update client conversions plan state []).1
    × Every (λ c h. WhileDetached view c h) (delete client conversions state []).1
update_and_delete_detached_example =
    update_and_delete_detached semantics conversions reads plan state [] refl
      (refl, refl, refl, inl refl) tt

create_tracks_example :
    let r = create client conversions plan [] in
    (((n : ℕ) × (m : VolumeResourceModel) × (r.0.0 ≡ some m)
        × (m.id ≡ known (conversions.itoa n))
        × (created client r.1 ≡ n ∷ []))
      ⊎ ((r.0.0 ≡ none) × (created client r.1 ≡ [])))
    ⊎ ((r.0.0 ≡ none) × (plan.source_volume_id ≡ null) × Lost client [] r.1)
create_tracks_example = create_tracks client conversions answers plan []

abbrev created_state : VolumeResourceModel
created_state = record saved_state { id = known "7" }

create_saves : (create client conversions plan []).0.0 ≡ some created_state
unfolding create after explained flatten_volume keep_or_update_value
create_saves = refl

create-update-IsSaved_example :
    (IsSaved created_state × Keeps plan created_state)
    × (IsSaved saved_state × Keeps plan saved_state)
create-update-IsSaved_example =
    create-update-IsSaved client conversions plan state created_state saved_state []
      (update client conversions plan state []).1 refl
      (refl, refl, refl, refl, refl, refl, refl, refl, refl, refl) create_saves
      (ap (λ r. (r, (update client conversions plan state []).1)) update_saves)

-- A client whose volumes never become active.
abbrev never_active : Client
never_active = record {
  acts = λ c h. ok tt;
  answers_volume = λ c h. elim c [
    | get_volume n ↦ ok (volume_with n)
    | clone_volume n l ↦ ok (volume_with 7)
    | create_volume o ↦ ok (volume_with 7)
    | wait_for_volume_active n ↦ err "timeout"
    | update_volume n o ↦ ok (volume_with n)
    | resize_volume n s ↦ ok (volume_with n)
    | attach_volume n l ↦ ok (volume_with n)
    | detach_volume n ↦ ok (volume_with n)
    | wait_for_volume_linode_id n l ↦ ok (volume_with n)
    | delete_volume n ↦ ok (volume_with n)
  ];
}

-- The new volume is not saved, and its clone is.
new_volume_lost :
    ((create never_active conversions plan []).0.0 ≡ none)
    × (created never_active (create never_active conversions plan []).1 ≡ 7 ∷ [])
unfolding create after explained
new_volume_lost = (refl, refl)

clone_saved :
    (create never_active conversions (record plan { source_volume_id = known 5 }) []).0.0
    ≡ some (record saved_state { source_volume_id = known 5 })
unfolding create create_volume_from_source clone_check then_step kept after explained flatten_volume
    keep_or_update_value
clone_saved = refl
