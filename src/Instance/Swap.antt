-- ===== src/Instance/Swap.antt =====
-- adjustSwapSizeIfNeeded of linode/instance/resource.go, and getInstanceDefaultDisks of helpers.go.
pub mod Fits
pub mod Adjusted
use terraform_provider_linod.Prelude.Runs.{done, fail, lift, ◌>>=◌, ◌>>◌, or_fail}
use terraform_provider_linod.Prelude.{
  ℕ, ◌+◌, ◌-◌, String, Bool, true, false, ltb, leb, Option, none, some, List, [], ◌∷◌, Result, ok,
  err, ◌==◌, string_eq, if◌then◌else◌,
}
use terraform_provider_linod.Instance.{
  offline, Instance, Disk, disk_resize, list_instance_disks, new_event_poller, wait_for_finished,
  wait_for_instance_status, wait_for_instance_disk_ready, resize_instance_disk_below, Client, Run,
  Ack, act, ask_instance, ask_disk, ask_disks,
}
use terraform_provider_linod.Instance.Disks.{prepare_resize, change_instance_disk_size}

unfoldable pub find_disk_by_fs : List Disk → String → Option Disk
find_disk_by_fs [] fs = none
find_disk_by_fs (disk ∷ disks) fs =
    if disk.filesystem == fs then some disk else find_disk_by_fs disks fs

-- A size as Go computes it, which may be below 0.
pub data Target : Type 0 where
  size below : ℕ → Target

-- `bootDisk.Size - (newSwap - oldSwap)`
unfoldable pub new_boot_disk_size : ℕ → ℕ → ℕ → Target
new_boot_disk_size boot old new =
    if leb new (boot + old) then size (boot + old - new) else below (new - (boot + old))

unfoldable pub grows : ℕ → Target → Bool
grows boot (size n) = ltb boot n
grows boot (below n) = false

-- The order of the resizes: the disk that shrinks is the first.
abbrev pub in_order : Bool → Target × Disk → Target × Disk → List (Target × Disk)
in_order true boot swap = swap ∷ boot ∷ []
in_order false boot swap = boot ∷ swap ∷ []

-- An attribute of the resource's data, with what the SDK says of its change.
pub record Change (A : Type 0) : Type 0 where
  pub old : A
  pub new : A
  pub has_change : Bool

module _ (client : Client) where
  -- changeInstanceDiskSize with a negative size, which no disk has afterwards.
  abbrev pub change_below : Instance → Disk → ℕ → Run Ack
  change_below i disk n = do
    prepare_resize client i i.status
    or_fail "Error waiting for Instance to go offline: "
        (ask_instance client (wait_for_instance_status i.id offline))
    or_fail "failed to initialize event poller: " (act client (new_event_poller i.id disk_resize))
    or_fail "Error resizing disk for Instance: "
        (act client (resize_instance_disk_below i.id disk.id n))
    or_fail "Error waiting for resize of Instance Disk: "
        (act client (wait_for_finished i.id disk_resize))
    or_fail "Error waiting disk on instance to be ready: "
        (ask_disk client (wait_for_instance_disk_ready i.id disk.id))
    fail "Error resizing disk on instance"

  abbrev pub change_to : Instance → Disk → Target → Run Ack
  change_to i disk (size n) = change_instance_disk_size client i disk n
  change_to i disk (below n) = change_below i disk n

  abbrev pub resize_each : Instance → List (Target × Disk) → Run Bool
  resize_each i [] = done true
  resize_each i ((target, disk) ∷ to_resize) = do change_to i disk target; resize_each i to_resize

  -- A disk that is not found is a nil pointer, which the next step reads.
  abbrev pub resize_both : Instance → ℕ → ℕ → Option Disk → Option Disk → Run Bool
  resize_both i old new none swap = fail "panic: nil pointer dereference"
  resize_both i old new (some boot) none =
      let target = new_boot_disk_size boot.size old new in
      if grows boot.size target
      then fail "panic: nil pointer dereference"
      else (change_to i boot target >> fail "panic: nil pointer dereference")
  resize_both i old new (some boot) (some swap) =
      let target = new_boot_disk_size boot.size old new in
      resize_each i (in_order (grows boot.size target) (target, boot) (size new, swap))

  unfoldable pub adjust_swap_size_if_needed : Instance → Change ℕ → Run Bool
  adjust_swap_size_if_needed i swap_size =
      if swap_size.has_change
      then (do
        disks ←
            or_fail "Error getting instance managed disks: "
              (ask_disks client (list_instance_disks i.id))
        resize_both i swap_size.old swap_size.new (find_disk_by_fs disks "ext4")
            (find_disk_by_fs disks "swap"))
      else done false
