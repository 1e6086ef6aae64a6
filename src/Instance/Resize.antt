-- ===== src/Instance/Resize.antt =====
-- The type of an instance: linode/instance/helpers.go, changeInstanceType and applyInstanceTypeChange
-- with their helpers.
pub mod Offline
use terraform_provider_linod.Prelude.Runs.{done, fail, ◌>>=◌, ◌>>◌, or_fail}
use terraform_provider_linod.Prelude.{
  ℕ, zero, suc, ◌+◌, String, Bool, true, false, not, ◌&&◌, ◌||◌, ltb, length, is_empty, Option,
  none, some, List, [], ◌∷◌, Result, ok, err, ◌==◌, ◌!=◌, string_eq, nat_eq, if◌then◌else◌,
}
use terraform_provider_linod.Compare.{contains}
use terraform_provider_linod.Instance.{
  offline, Instance, LinodeType, Disk, Migration, cold, warm, ResizeOptions, linode_resize,
  get_instance, list_instance_disks, get_instance_disk, new_event_poller, wait_for_finished,
  wait_for_instance_status, resize_instance, Client, Run, Ack, act, ask_instance, ask_disk,
  ask_disks,
}
use terraform_provider_linod.Instance.Power.{ensure_instance_offline}
use terraform_provider_linod.Instance.Disks.{DiskSpec}

unfoldable pub get_first_disk_with_filesystem : List Disk → List String → Option Disk
get_first_disk_with_filesystem [] filesystems = none
get_first_disk_with_filesystem (disk ∷ disks) filesystems =
    if contains filesystems disk.filesystem
    then some disk
    else get_first_disk_with_filesystem disks filesystems

-- `linodego.FilesystemExt4` and `FilesystemExt3`
abbrev pub ext_filesystems : List String
ext_filesystems = "ext4" ∷ "ext3" ∷ []

abbrev is_missing : Option Disk → Bool
is_missing none = true
is_missing (some disk) = false

abbrev pub implicit_disks_invalid : List Disk → Bool
implicit_disks_invalid [] = false
implicit_disks_invalid (d ∷ disks) =
    is_missing (get_first_disk_with_filesystem (d ∷ disks) ext_filesystems)
    || ltb 2 (length (d ∷ disks))

abbrev pub fail_when : Bool → String → Run Ack
fail_when true message = fail message
fail_when false message = done tt

unfoldable pub disk_size_sum : List Disk → ℕ
disk_size_sum [] = 0
disk_size_sum (disk ∷ disks) = disk.size + disk_size_sum disks

-- The sums of getDiskSizeChange, one list at a time.
unfoldable pub spec_size_sum : List DiskSpec → ℕ
spec_size_sum [] = 0
spec_size_sum (disk ∷ disks) = disk.size + spec_size_sum disks

-- The arguments that the resource's data gives: `resize_disk`, `migration_type`, whether the
-- configuration has explicit disks and no image, and the new disks.
pub record TypeChange : Type 0 where
  pub resize_disk : Bool
  pub migration_type : Migration
  pub explicit_disks : Bool
  pub new_disks : List DiskSpec

module _ (client : Client) where
  unfoldable pub validate_implicit_disks : ℕ → Run Ack
  validate_implicit_disks instance_id = do
    disks ←
        or_fail "failed to get instance disks: "
          (ask_disks client (list_instance_disks instance_id))
    fail_when (implicit_disks_invalid disks) "invalid implicit disk configuration: "

  unfoldable pub get_disk_size_sum : ℕ → Run ℕ
  get_disk_size_sum instance_id = do
    disks ←
        or_fail "failed to get instance disks: "
          (ask_disks client (list_instance_disks instance_id))
    done (disk_size_sum disks)

  unfoldable pub get_primary_implicit_disk : ℕ → Run (Option Disk)
  get_primary_implicit_disk instance_id = do
    disks ←
        or_fail "failed to get instance disks: "
          (ask_disks client (list_instance_disks instance_id))
    fail_when (ltb 2 (length disks)) "invalid implicit disk configuration: "
    done (get_first_disk_with_filesystem disks ext_filesystems)

  -- The loop over the ticks until the deadline, which is `ticks` away.
  abbrev pub changed_or : Bool → Disk → Run Disk → Run Disk
  changed_or true disk again = done disk
  changed_or false disk again = again

  unfoldable pub wait_for_instance_disk_size_change : ℕ → ℕ → ℕ → ℕ → Run Disk
  wait_for_instance_disk_size_change instance_id disk_id old_size zero =
      fail "failed to wait for instance disk size change"
  wait_for_instance_disk_size_change instance_id disk_id old_size (suc ticks) = do
    disk ← ask_disk client (get_instance_disk instance_id disk_id)
    changed_or (disk.size != old_size) disk
        (wait_for_instance_disk_size_change instance_id disk_id old_size ticks)

  abbrev pub start_state : Migration → ℕ → Run Instance
  start_state cold instance_id =
      or_fail "failed to shut down instance for cold migration: "
        (ensure_instance_offline client instance_id)
  start_state warm instance_id =
      or_fail "failed to fetch instance details for warm migration: "
        (ask_instance client (get_instance instance_id))

  abbrev pub primary_disk : Bool → ℕ → Run (Option Disk)
  primary_disk true instance_id = get_primary_implicit_disk instance_id
  primary_disk false instance_id = done none

  abbrev pub wait_for_size : ℕ → Instance → Option Disk → Run Instance
  wait_for_size ticks i none = done i
  wait_for_size ticks i (some disk) = do
    or_fail "failed to wait for disk resize: "
        (wait_for_instance_disk_size_change i.id disk.id disk.size ticks)
    done i

  abbrev pub send_resize : ℕ → ResizeOptions → Instance → Option Disk → Run Instance
  send_resize ticks options i primary = do
    or_fail "failed to initialize event poller: " (act client (new_event_poller i.id linode_resize))
    or_fail "Error resizing Instance: " (act client (resize_instance i.id options))
    or_fail "Error waiting for instance to finish resizing: "
        (act client (wait_for_finished i.id linode_resize))
    resized ←
        or_fail "Error waiting for Instance to enter offline state: "
          (ask_instance client (wait_for_instance_status i.id offline))
    wait_for_size ticks resized primary

  unfoldable pub change_instance_type : ℕ → ℕ → String → Migration → Bool → Run Instance
  change_instance_type ticks instance_id target_type migration_type disk_resize = do
    i ← start_state migration_type instance_id
    primary ← primary_disk disk_resize instance_id
    send_resize ticks
        (record {
          allow_auto_disk_resize = disk_resize;
          target_type = target_type;
          migration_type = migration_type;
        })
        i primary

  unfoldable pub assert_disk_config_fits_instance_type : List DiskSpec → LinodeType → Run Ack
  assert_disk_config_fits_instance_type new_disks typ =
      fail_when (ltb typ.disk_capacity (spec_size_sum new_disks))
        "linode type has insufficient disk capacity for the config"

  abbrev pub check_resize_disk : Bool → TypeChange → Instance → LinodeType → Run Ack
  check_resize_disk false d i typ = done tt
  check_resize_disk true d i typ = do
    fail_when d.explicit_disks "resize_disk requires that no explicit disks are defined"
    validate_implicit_disks i.id
    used_space ← or_fail "failed to calculate total disk size: " (get_disk_size_sum i.id)
    fail_when (ltb typ.disk_capacity used_space) "failed to resize instance and disk: "

  unfoldable pub apply_instance_type_change : ℕ → TypeChange → Instance → LinodeType → Run Instance
  apply_instance_type_change ticks d i typ = do
    check_resize_disk d.resize_disk d i typ
    assert_disk_config_fits_instance_type d.new_disks typ
    change_instance_type ticks i.id typ.id d.migration_type d.resize_disk
