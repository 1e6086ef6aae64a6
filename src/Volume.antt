-- ===== src/Volume.antt =====
-- linode/volume: the volume resource. This file has its model (framework_models.go), the calls of the
-- API, and the functions that the operations of framework_resource.go share.
pub mod Create
pub mod Update
pub mod Semantics
pub mod Read
pub mod Merged
pub mod Saved
mod Tests
use terraform_provider_linod.Prelude.Runs.{Runs, ◌>>=◌, ◌>>◌, or_fail}
use terraform_provider_linod.Prelude.{
  ℕ, String, Bool, true, false, Option, none, some, List, ◌∷◌, Result, ok, err,
}
use terraform_provider_linod.Helpers.Attributes.{
  Attribute, null, unknown, known, keep_or_update_value, int_pointer_value_with_default,
}

-- linodego's volume.
pub record Volume : Type 0 where
  pub id : ℕ
  pub label : String
  pub region : String
  pub size : ℕ
  pub encryption : String
  pub linode_id : Option ℕ
  pub filesystem_path : String
  pub tags : List String
  pub status : String

-- The set of tags is the list of its elements in the one order in which it is kept.
pub record VolumeResourceModel : Type 0 where
  pub source_volume_id : Attribute ℕ
  pub id : Attribute String
  pub label : Attribute String
  pub region : Attribute String
  pub size : Attribute ℕ
  pub linode_id : Attribute ℕ
  pub filesystem_path : Attribute String
  pub tags : Attribute (List String)
  pub status : Attribute String
  pub encryption : Attribute String

pub record VolumeCreateOptions : Type 0 where
  pub label : String
  pub region : String
  pub size : ℕ
  pub encryption : String
  pub tags : List String
  pub linode_id : ℕ

pub record VolumeUpdateOptions : Type 0 where
  pub label : String
  pub tags : Option (List String)

-- The calls, with their arguments but the deadlines; the status that is waited for is active.
pub data Call : Type 0 where
  get_volume : ℕ → Call
  clone_volume : ℕ → String → Call
  create_volume : VolumeCreateOptions → Call
  wait_for_volume_active : ℕ → Call
  update_volume : ℕ → VolumeUpdateOptions → Call
  resize_volume : ℕ → ℕ → Call
  attach_volume : ℕ → ℕ → Call
  detach_volume : ℕ → Call
  wait_for_volume_linode_id : ℕ → Option ℕ → Call
  delete_volume : ℕ → Call

abbrev pub History : Type 0
History = List Call

abbrev pub Run : Type 0 → Type 0
Run = Runs Call

-- A reply that only says that the call went through.
abbrev pub Ack : Type 0
Ack = Unit

pub record Client : Type 0 where
  pub acts : Call → History → Result String Ack
  pub answers_volume : Call → History → Result String Volume

-- Go's strconv, and the framework's conversion of a set of strings.
pub record Conversions : Type 0 where
  pub itoa : ℕ → String
  pub atoi : String → Result String ℕ
  pub elements_as : Attribute (List String) → Result String (List String)

-- `FlattenVolume`; linodego gives a volume where it gives no error.
unfoldable pub flatten_volume :
    Conversions → VolumeResourceModel → Volume → Bool → VolumeResourceModel
flatten_volume conversions model volume preserve_known = record {
  source_volume_id = model.source_volume_id;
  id = keep_or_update_value model.id (known (conversions.itoa volume.id)) preserve_known;
  label = keep_or_update_value model.label (known volume.label) preserve_known;
  region = keep_or_update_value model.region (known volume.region) preserve_known;
  size = keep_or_update_value model.size (known volume.size) preserve_known;
  linode_id =
      keep_or_update_value model.linode_id (int_pointer_value_with_default volume.linode_id)
        preserve_known;
  filesystem_path =
      keep_or_update_value model.filesystem_path (known volume.filesystem_path) preserve_known;
  tags = keep_or_update_value model.tags (known volume.tags) preserve_known;
  status = keep_or_update_value model.status (known volume.status) preserve_known;
  encryption = keep_or_update_value model.encryption (known volume.encryption) preserve_known;
}

-- `CopyFrom`
unfoldable pub copy_from : VolumeResourceModel → VolumeResourceModel → Bool → VolumeResourceModel
copy_from model other preserve_known = record {
  source_volume_id =
      keep_or_update_value model.source_volume_id other.source_volume_id preserve_known;
  id = keep_or_update_value model.id other.id preserve_known;
  label = keep_or_update_value model.label other.label preserve_known;
  region = keep_or_update_value model.region other.region preserve_known;
  size = keep_or_update_value model.size other.size preserve_known;
  linode_id = keep_or_update_value model.linode_id other.linode_id preserve_known;
  filesystem_path = keep_or_update_value model.filesystem_path other.filesystem_path preserve_known;
  tags = keep_or_update_value model.tags other.tags preserve_known;
  status = keep_or_update_value model.status other.status preserve_known;
  encryption = keep_or_update_value model.encryption other.encryption preserve_known;
}

module _ (client : Client) where
  abbrev pub act : Call → Run Ack
  act c h = (client.acts c h, c ∷ h)

  abbrev pub ask : Call → Run Volume
  ask c h = (client.answers_volume c h, c ∷ h)

  unfoldable pub handle_resize : ℕ → ℕ → Run Volume
  handle_resize volume_id new_size = do
    or_fail "Failed to Resize Volume" (act (resize_volume volume_id new_size))
    or_fail "Failed to Wait for Volume Ready from Resizing" (ask (wait_for_volume_active volume_id))

  unfoldable pub detach_volume_and_wait : ℕ → Run Volume
  detach_volume_and_wait id = do
    or_fail "Failed to Detach Volume" (act (detach_volume id))
    or_fail "Failed to Wait for Volume Detached" (ask (wait_for_volume_linode_id id none))
