-- ===== src/Instance/Operation.antt =====
-- linode/instancedisk: the operations of the disk resource, which shut the instance down around a
-- change of a disk and boot it again. A diagnostic is kept by its summary.
pub mod Power
pub mod Restored
use terraform_provider_linod.Prelude.Runs.{done, fail, lift, ◌>>=◌, ◌>>◌, or_fail}
use terraform_provider_linod.Prelude.{
  ℕ, String, Bool, true, false, Option, none, some, List, [], ◌∷◌, Result, ok, err, ◌!=◌, nat_eq,
}
use terraform_provider_linod.Instance.{
  Status, offline, running, booting, rebooting, shutting_down, other, Disk, disk_resize,
  disk_delete, list_instance_disks, get_instance_disk, new_event_poller_with_secondary,
  wait_for_finished, wait_for_instance_disk_ready, resize_instance_disk, delete_instance_disk,
  Client, Run, Ack, act, ask_disk, ask_disks,
}
use terraform_provider_linod.Instance.Power.{
  wait_for_instance_non_transient_status, shut_down_instance_sync, boot_instance_sync,
}

-- An operation that reports its error elsewhere, so that its caller sees none.
abbrev pub attempt : {A : Type 0} → Run A → Run (Result String A)
attempt m h = (ok (m h).0, (m h).1)

module _ (client : Client) where
  -- The guard before the operation.
  abbrev pub stop_if_running : Status → Bool → ℕ → Run Ack
  stop_if_running running true linode_id =
      fail "Linode instance shutdown is required to complete this operation"
  stop_if_running running false linode_id =
      or_fail "Failed to shutdown Linode instance" (shut_down_instance_sync client linode_id)
  stop_if_running _ skip_implicit_reboots linode_id = done tt

  -- And the boot after it, into the config booted before, which is config 0.
  abbrev pub boot_if_stopped : List Disk → ℕ → Status → Run Ack
  boot_if_stopped [] linode_id status = done tt
  boot_if_stopped (d ∷ disks) linode_id running =
      or_fail "Failed to boot Linode instance" (boot_instance_sync client linode_id 0)
  boot_if_stopped (d ∷ disks) linode_id _ = done tt

  unfoldable pub run_disk_operation : {A : Type 0} → Bool → ℕ → Run A → Run A
  run_disk_operation skip_implicit_reboots linode_id call_operation = do
    original_status ←
        or_fail "Failed to wait for instance to exit transient status"
          (wait_for_instance_non_transient_status client linode_id)
    stop_if_running original_status skip_implicit_reboots linode_id
    result ← call_operation
    disks ←
        or_fail "Failed to list instance disks after operation"
          (ask_disks client (list_instance_disks linode_id))
    boot_if_stopped disks linode_id original_status
    done result

  abbrev pub check_size : Bool → Run Ack
  check_size true = fail "Failed to resize Linode instance disk"
  check_size false = done tt

  -- The closure of resizeDiskSync.
  unfoldable pub resize_disk : ℕ → ℕ → ℕ → Run Ack
  resize_disk linode_id disk_id new_size = do
    disk ←
        or_fail "Failed to get Linode instance disk"
          (ask_disk client (get_instance_disk linode_id disk_id))
    or_fail "Failed to create event poller"
        (act client (new_event_poller_with_secondary linode_id disk_id disk_resize))
    or_fail "Failed to resize Linode instance disk"
        (act client (resize_instance_disk linode_id disk_id new_size))
    or_fail "Failed to wait for Linode instance disk resize to complete"
        (act client (wait_for_finished linode_id disk_resize))
    updated_disk ←
        or_fail "Failed to wait for Linode instance disk to be ready"
          (ask_disk client (wait_for_instance_disk_ready linode_id disk.id))
    check_size (updated_disk.size != new_size)

  unfoldable pub resize_disk_sync : Bool → ℕ → ℕ → ℕ → Run Ack
  resize_disk_sync skip_implicit_reboots linode_id disk_id new_size =
      run_disk_operation skip_implicit_reboots linode_id (resize_disk linode_id disk_id new_size)

  -- The closure of Delete.
  unfoldable pub remove_disk : ℕ → ℕ → Run Ack
  remove_disk linode_id id = do
    or_fail "Failed to initialize event poller"
        (act client (new_event_poller_with_secondary linode_id id disk_delete))
    or_fail "Failed to delete Linode instance disk" (act client (delete_instance_disk linode_id id))
    or_fail "Failed to wait for Linode instance disk deletion to finish"
        (act client (wait_for_finished linode_id disk_delete))

  -- Delete: the closure adds its errors to the response, not to the diagnostics that it returns.
  unfoldable pub delete_disk_sync : Bool → ℕ → ℕ → Run Ack
  delete_disk_sync skip_implicit_reboots linode_id id = do
    result ← run_disk_operation skip_implicit_reboots linode_id (attempt (remove_disk linode_id id))
    lift result
