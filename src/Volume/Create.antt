-- ===== src/Volume/Create.antt =====
-- `Create`, `CreateVolume` and `CreateVolumeFromSource` of linode/volume/framework_resource.go. An error
-- after the clone leaves the volume, which is saved in the state with it.
pub mod Kept
pub mod Tracked
use terraform_provider_linod.Prelude.Runs.{fail, done, lift, ◌>>=◌, ◌>>◌, or_fail}
use terraform_provider_linod.Prelude.{
  ℕ, String, Bool, true, false, Option, none, some, List, Result, ok, err, ltb, ◌==◌, ◌!=◌, ◌&&◌,
  nat_eq, string_eq, if◌then◌else◌,
}
use terraform_provider_linod.Helpers.Attributes.{Attribute, null, unknown, known, value}
use terraform_provider_linod.Volume.{
  Volume, VolumeResourceModel, VolumeCreateOptions, VolumeUpdateOptions, get_volume, clone_volume,
  create_volume, wait_for_volume_active, update_volume, attach_volume, History, Run, Ack, Client,
  Conversions, flatten_volume, ask, handle_resize,
}

abbrev region_differs : Attribute String → Volume → Bool
region_differs (known region) source_volume = region != source_volume.region
region_differs null source_volume = false
region_differs unknown source_volume = false

abbrev size_is_short : Attribute ℕ → Volume → Bool
size_is_short (known size) source_volume = ltb size source_volume.size
size_is_short null source_volume = false
size_is_short unknown source_volume = false

unfoldable pub clone_check : VolumeResourceModel → Volume → Result String Ack
clone_check model source_volume =
    if region_differs model.region source_volume
    then err "Region Mismatched"
    else if size_is_short model.size source_volume
    then err "Insufficient Size"
    else ok tt

-- A volume, with the error that came after it.
abbrev pub Outcome : Type 0
Outcome = (Volume × Option String) × History

abbrev pub Step : Type 0
Step = Volume → History → Outcome

-- The next step is taken where there is no error.
unfoldable pub then_step : Step → Outcome → Outcome
then_step step ((v, none), h) = step v h
then_step step ((v, some e), h) = ((v, some e), h)

-- The volume after a call that waits for it, and after one that gives the changed volume.
unfoldable pub kept : Volume → Result String Volume × History → Outcome
kept v (ok w, h) = ((v, none), h)
kept v (err e, h) = ((v, some e), h)

unfoldable pub replaced : Volume → Result String Volume × History → Outcome
replaced v (ok w, h) = ((w, none), h)
replaced v (err e, h) = ((v, some e), h)

-- What a function on volumes gives, and what is saved of it.
abbrev pub Created : Type 0
Created = (Option Volume × Option String) × History

module _ (client : Client) (conversions : Conversions) where
  abbrev pub wait_cloned : Step
  wait_cloned v h = kept v (
      or_fail "Failed to Wait for Volume Cloned to be Ready"
        (ask client (wait_for_volume_active v.id)) h)

  abbrev pub send_tags : Result String (List String) → Step
  send_tags (ok tags) v h = replaced v (
      or_fail "Failed to Update Cloned Volume"
        (ask client (update_volume v.id (record { label = ""; tags = some tags }))) h)
  send_tags (err e) v h = ((v, some e), h)

  abbrev pub tag_clone : Attribute (List String) → Step
  tag_clone (known tags) v h = send_tags (conversions.elements_as (known tags)) v h
  tag_clone null v h = ((v, none), h)
  tag_clone unknown v h = ((v, none), h)

  abbrev pub resize_if : Bool → ℕ → Step
  resize_if true new_size v h = replaced v (handle_resize client v.id new_size h)
  resize_if false new_size v h = ((v, none), h)

  abbrev pub resize_clone : Attribute ℕ → Step
  resize_clone (known new_size) v h = resize_if (new_size != v.size) new_size v h
  resize_clone null v h = ((v, none), h)
  resize_clone unknown v h = ((v, none), h)

  abbrev pub attach_clone : Attribute ℕ → Step
  attach_clone (known linode_id) v h =
      replaced v
        (or_fail "Failed to Attach Cloned Volume" (ask client (attach_volume v.id linode_id)) h)
  attach_clone null v h = ((v, none), h)
  attach_clone unknown v h = ((v, none), h)

  abbrev pub finish_clone : VolumeResourceModel → Step
  finish_clone model v h =
      then_step (attach_clone model.linode_id)
        (then_step (resize_clone model.size) (then_step (tag_clone model.tags) (wait_cloned v h)))

  abbrev pub clone : VolumeResourceModel → Run Volume
  clone model =
      or_fail "Failed to Clone Volume"
        (ask client (clone_volume (value 0 model.source_volume_id) (value "" model.label)))

  abbrev pub clone_source : VolumeResourceModel → Run Volume
  clone_source model = do
    source_volume ←
        or_fail "Failed to Get Source Volume"
          (ask client (get_volume (value 0 model.source_volume_id)))
    lift (clone_check model source_volume)
    clone model

  abbrev tracked : Outcome → Created
  tracked ((v, e), h) = ((some v, e), h)

  abbrev pub finish_if : VolumeResourceModel → Result String Volume × History → Created
  finish_if model (ok v, h) = tracked (finish_clone model v h)
  finish_if model (err e, h) = ((none, some e), h)

  unfoldable pub create_volume_from_source : VolumeResourceModel → History → Created
  create_volume_from_source model h = finish_if model (clone_source model h)

  abbrev pub encryption_of : Attribute String → String
  encryption_of (known encryption) = if encryption != "" then encryption else "enabled"
  encryption_of null = "enabled"
  encryption_of unknown = "enabled"

  abbrev pub create_options : VolumeResourceModel → List String → VolumeCreateOptions
  create_options model tags = record {
    label = value "" model.label;
    region = value "" model.region;
    size = value 0 model.size;
    encryption = encryption_of model.encryption;
    tags = tags;
    linode_id = value 0 model.linode_id;
  }

  abbrev pub wait_created : Volume → Run Volume
  wait_created v =
      or_fail "Failed to Wait for Created Volume be Active"
        (ask client (wait_for_volume_active v.id))

  abbrev pub create_with : VolumeResourceModel → List String → Run Volume
  create_with model tags = do
    v ← or_fail "Failed to Create a Volume" (ask client (create_volume (create_options model tags)))
    wait_created v

  -- `CreateVolume`, which returns nil where the wait fails.
  abbrev pub create_and_wait : VolumeResourceModel → Run Volume
  create_and_wait model = do
    tags ← lift (conversions.elements_as model.tags)
    create_with model tags

  abbrev pub found_or_none : Result String Volume × History → Created
  found_or_none (ok v, h) = ((some v, none), h)
  found_or_none (err e, h) = ((none, some e), h)

  abbrev pub by_source : Attribute ℕ → VolumeResourceModel → History → Created
  by_source null model h = found_or_none (create_and_wait model h)
  by_source unknown model h = create_volume_from_source model h
  by_source (known source) model h = create_volume_from_source model h

  abbrev pub with_id : VolumeResourceModel → Attribute String → VolumeResourceModel
  with_id model id = record model { id = id }

  abbrev pub saved : VolumeResourceModel → Option Volume → Option VolumeResourceModel
  saved plan none = none
  saved plan (some v) =
      some (with_id (flatten_volume conversions plan v true) (known (conversions.itoa v.id)))

  unfoldable pub create :
      VolumeResourceModel → History → (Option VolumeResourceModel × Option String) × History
  create plan h = let r = by_source plan.source_volume_id plan h in ((saved plan r.0.0, r.0.1), r.1)
