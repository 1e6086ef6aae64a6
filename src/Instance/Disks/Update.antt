-- ===== src/Instance/Disks/Update.antt =====
-- updateInstanceDisks, and its helpers for one disk.
use terraform_provider_linod.Prelude.Runs.{lift, done, fail, ◌>>=◌, ◌>>◌, or_fail}
use terraform_provider_linod.Prelude.{
  String, Bool, true, false, not, ◌&&◌, ◌||◌, is_empty, Option, none, some, List, [], ◌∷◌, Result,
  ok, err, ◌!=◌, string_eq, nat_eq, if◌then◌else◌,
}
use terraform_provider_linod.Prelude.Dict.{Dict, get, has_key}
use terraform_provider_linod.Instance.{
  Instance, Disk, disk_delete, new_event_poller, wait_for_finished, delete_instance_disk, Client,
  Run, Ack, act,
}
use terraform_provider_linod.Instance.Disks.{
  DiskSpec, Diffs, disk_specs_by_label, get_instance_disk_spec_diffs, get_instance_disks,
  create_instance_disk, change_instance_disk_size,
}

-- Every old disk that stays must be on the instance.
unfoldable pub check_present :
    Dict String DiskSpec → Dict String Disk → Dict String DiskSpec → Result String Ack
check_present removed disks [] = ok tt
check_present removed disks ((label, spec) ∷ old_disk) =
    let rest = check_present removed disks old_disk in
    if not (has_key label disks) && not (has_key label removed)
    then err "disk was not found on instance"
    else rest

-- A read of a key that the map lacks gives the zero value.
abbrev pub disk_or_zero : Option Disk → Disk
disk_or_zero none = record { id = 0; label = ""; size = 0; filesystem = "" }
disk_or_zero (some disk) = disk

module _ (client : Client) where
  abbrev pub delete_disk : Instance → Disk → Run Ack
  delete_disk i disk = do
    or_fail "failed to initialize event poller: " (act client (new_event_poller i.id disk_delete))
    act client (delete_instance_disk i.id disk.id)
    or_fail "error waiting for Instance Disk to finish deleting: "
        (act client (wait_for_finished i.id disk_delete))

  abbrev pub delete_found : Instance → Option Disk → Run Ack
  delete_found i none = done tt
  delete_found i (some disk) = delete_disk i disk

  unfoldable pub delete_removed : Instance → Dict String Disk → Dict String DiskSpec → Run Ack
  delete_removed i disks [] = done tt
  delete_removed i disks ((label, spec) ∷ removed) = do
    delete_found i (get label disks)
    delete_removed i disks removed

  abbrev pub keep_filesystem : Bool → Bool → Run Bool
  keep_filesystem true has_changes = fail "failed to update disk; filesystems can not be changed"
  keep_filesystem false has_changes = done has_changes

  abbrev pub resize_if : Bool → Instance → Disk → DiskSpec → Bool → Run Bool
  resize_if true i disk spec has_changes = do
    change_instance_disk_size client i disk spec.size
    keep_filesystem (spec.filesystem != disk.filesystem) true
  resize_if false i disk spec has_changes =
      keep_filesystem (spec.filesystem != disk.filesystem) has_changes

  unfoldable pub update_existing :
      Instance → Dict String Disk → Dict String DiskSpec → Bool → Run Bool
  update_existing i disks [] has_changes = done has_changes
  update_existing i disks ((label, spec) ∷ existing) has_changes = do
    let disk = disk_or_zero (get label disks)
    changed ← resize_if (spec.size != disk.size) i disk spec has_changes
    update_existing i disks existing changed

  unfoldable pub create_added : Result String String → Instance → Dict String DiskSpec → Run Ack
  create_added random i [] = done tt
  create_added random i ((label, spec) ∷ added) = do
    create_instance_disk client random i spec
    create_added random i added

  abbrev pub apply_diffs : Result String String → Instance → Dict String Disk → Diffs → Run Bool
  apply_diffs random i disks diffs = do
    delete_removed i disks diffs.removed
    changed ←
        update_existing i disks diffs.existing
          (not (is_empty diffs.added) || not (is_empty diffs.removed))
    create_added random i diffs.added
    done changed

  unfoldable pub update_instance_disks :
      Result String String → Instance → List DiskSpec → List DiskSpec → Run Bool
  update_instance_disks random i old_disk new_disk = do
    let old = disk_specs_by_label old_disk []
    let diffs = get_instance_disk_spec_diffs old (disk_specs_by_label new_disk [])
    disks ← get_instance_disks client i.id
    lift (check_present diffs.removed disks old)
    apply_diffs random i disks diffs
