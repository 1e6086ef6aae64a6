-- ===== src/Volume/Read.antt =====
-- `Read` of linode/volume/framework_resource.go. A resource that is removed from the state is `none`.
pub mod Refreshed
use terraform_provider_linod.Prelude.Runs.{done, explained, lift, ◌>>=◌}
use terraform_provider_linod.Prelude.{
  String, Bool, true, false, Option, none, some, Result, ok, err, ◌==◌, string_eq, if◌then◌else◌,
}
use terraform_provider_linod.Helpers.Attributes.{value}
use terraform_provider_linod.Volume.{
  Volume, VolumeResourceModel, get_volume, History, Run, Client, Conversions, flatten_volume, ask,
}

module _ (client : Client) (conversions : Conversions) (is_not_found : String → Bool) where
  abbrev pub found_volume :
      VolumeResourceModel
      → Result String Volume × History
      → Result String (Option VolumeResourceModel) × History
  found_volume state (ok v, h) = (ok (some (flatten_volume conversions state v false)), h)
  found_volume state (err e, h) =
      if is_not_found e then (ok none, h) else explained "Failed to Get the Volume" (err e, h)

  abbrev pub read_known : VolumeResourceModel → Run (Option VolumeResourceModel)
  read_known state = do
    id ← lift (conversions.atoi (value "" state.id))
    (λ h. found_volume state (ask client (get_volume id) h))

  unfoldable pub read : VolumeResourceModel → Run (Option VolumeResourceModel)
  read state = if value "" state.id == "" then done none else read_known state
