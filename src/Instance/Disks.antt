-- ===== src/Instance/Disks.antt =====
-- The explicit disks of an instance: linode/instance/helpers.go from createInstanceDisk to
-- updateInstanceDisks, and changeInstanceDiskSize. The loops over a map take its entries in the order
-- of the list; the warning about unmanaged disks is not modelled, nor is the flag beside an error, which
-- the caller does not read.
pub mod Partition
pub mod Update
pub mod Calls
pub mod Labels
pub mod Safety
pub mod Sizes
use terraform_provider_linod.Prelude.Runs.{lift, done, fail, ◌>>=◌, ◌>>◌, or_fail}
use terraform_provider_linod.Prelude.{
  ℕ, String, Bool, true, false, not, ◌&&◌, ◌||◌, ◌+◌, ltb, length, Option, none, some, List, [],
  ◌∷◌, map, Result, ok, err, ◌==◌, ◌!=◌, string_eq, nat_eq, if◌then◌else◌,
}
use terraform_provider_linod.Prelude.{◌>>=◌ as ◌and_then◌}
use terraform_provider_linod.Prelude.Dict.{Dict, get, put, has_key}
use terraform_provider_linod.Instance.{
  Status, offline, running, booting, rebooting, shutting_down, other, Instance, Disk,
  DiskCreateOptions, disk_create, disk_delete, disk_resize, Call, list_instance_disks,
  new_event_poller, wait_for_finished, wait_for_instance_status, wait_for_instance_disk_ready,
  shutdown_instance, create_instance_disk as call_create, delete_instance_disk,
  resize_instance_disk, Client, Run, Ack, act, ask_instance, ask_disk, ask_disks,
}

-- `diskSpec`, a map: `none` is a key that is absent, and an absent element of a list is nil. The schema
-- makes `stackscript_data` a map, so the error for another type is not modelled.
pub record DiskSpec : Type 0 where
  pub label : String
  pub size : ℕ
  pub filesystem : String
  pub image : Option String
  pub root_pass : Option String
  pub authorized_keys : Option (List (Option String))
  pub authorized_users : Option (List (Option String))
  pub stackscript_id : Option ℕ
  pub stackscript_data : Option (List (String × String))

unfoldable pub index_disks : List Disk → Dict String Disk → Result String (Dict String Disk)
index_disks [] disk_map = ok disk_map
index_disks (disk ∷ disks) disk_map =
    let rest = index_disks disks (put disk.label disk disk_map) in
    if has_key disk.label disk_map then err "Error indexing Instance Disks: Label" else rest

unfoldable pub disk_specs_by_label : List DiskSpec → Dict String DiskSpec → Dict String DiskSpec
disk_specs_by_label [] specs = specs
disk_specs_by_label (spec ∷ disks) specs = disk_specs_by_label disks (put spec.label spec specs)

pub record Diffs : Type 0 where
  pub added : Dict String DiskSpec
  pub removed : Dict String DiskSpec
  pub existing : Dict String DiskSpec
  pub placed : Dict String Ack

-- The loop over the new specs,
unfoldable pub place_new : Dict String DiskSpec → Dict String DiskSpec → Diffs
place_new old_disk_specs [] = record { added = []; removed = []; existing = []; placed = [] }
place_new old_disk_specs ((label, spec) ∷ specs) =
    let rest = place_new old_disk_specs specs in
    if has_key label old_disk_specs
    then record rest { existing = put label spec rest.existing; placed = put label tt rest.placed }
    else record rest { added = put label spec rest.added; placed = put label tt rest.placed }

-- and the one over the old.
unfoldable pub unplaced : Dict String Ack → Dict String DiskSpec → Dict String DiskSpec
unplaced placed [] = []
unplaced placed ((label, spec) ∷ specs) =
    let rest = unplaced placed specs in if has_key label placed then rest else put label spec rest

unfoldable pub get_instance_disk_spec_diffs : Dict String DiskSpec → Dict String DiskSpec → Diffs
get_instance_disk_spec_diffs old_disk_specs new_disk_specs =
    let placed = place_new old_disk_specs new_disk_specs in
    record placed { removed = unplaced placed.placed old_disk_specs }

-- `d.Get("disk")` gives every element as a string or nil.
unfoldable pub no_empty_keys : String → List (Option String) → Result String (List String)
no_empty_keys message [] = ok []
no_empty_keys message (none ∷ keys) = err message
no_empty_keys message (some key ∷ keys) =
    no_empty_keys message keys and_then λ rest. ok (key ∷ rest)

abbrev given_keys : String → Option (List (Option String)) → Result String (List String)
given_keys message none = ok []
given_keys message (some keys) = no_empty_keys message keys

abbrev number_or_zero : Option ℕ → ℕ
number_or_zero none = 0
number_or_zero (some n) = n

-- `random` is `CreateRandomRootPassword`, called where the password is absent or empty.
unfoldable pub root_pass_or_random : Result String String → Option String → Result String String
root_pass_or_random random none = random
root_pass_or_random random (some root_pass) = if root_pass != "" then ok root_pass else random

abbrev image_options : Result String String → DiskSpec → String → Result String DiskCreateOptions
image_options random disk image = root_pass_or_random random disk.root_pass and_then λ root_pass.
    given_keys "invalid input for disk authorized_keys: keys cannot be empty or null"
      disk.authorized_keys
    and_then λ keys.
        given_keys "invalid input for disk authorized_users: users cannot be empty or null"
          disk.authorized_users
        and_then λ users. ok (record {
          label = disk.label;
          filesystem = disk.filesystem;
          size = disk.size;
          image = image;
          root_pass = root_pass;
          authorized_keys = keys;
          authorized_users = users;
          stackscript_id = number_or_zero disk.stackscript_id;
          stackscript_data = disk.stackscript_data;
        })

abbrev plain_options : DiskSpec → DiskCreateOptions
plain_options disk = record {
  label = disk.label;
  filesystem = disk.filesystem;
  size = disk.size;
  image = "";
  root_pass = "";
  authorized_keys = [];
  authorized_users = [];
  stackscript_id = 0;
  stackscript_data = none;
}

-- The options of createInstanceDisk; the keys beside the image are read only with one.
unfoldable pub disk_options : Result String String → DiskSpec → Result String DiskCreateOptions
disk_options random disk = elim disk.image [
  | some image ↦ image_options random disk image
  | none ↦ ok (plain_options disk)
]

module _ (client : Client) where
  unfoldable pub get_instance_disks : ℕ → Run (Dict String Disk)
  get_instance_disks instance_id = do
    disks ←
        or_fail "Error fetching the disks for Instance: "
          (ask_disks client (list_instance_disks instance_id))
    lift (index_disks disks [])

  unfoldable pub create_instance_disk : Result String String → Instance → DiskSpec → Run Disk
  create_instance_disk random i disk = do
    options ← lift (disk_options random disk)
    or_fail "failed to initialize event poller: " (act client (new_event_poller i.id disk_create))
    created ←
        or_fail "Error creating Linode instance disk: " (ask_disk client (call_create i.id options))
    or_fail "Error waiting for Linode instance disk: "
        (act client (wait_for_finished i.id disk_create))
    done created

  -- The switch on the status, before the wait that all cases share.
  abbrev pub prepare_resize : Instance → Status → Run Ack
  prepare_resize i shutting_down = do
    or_fail "Error waiting for Instance to go offline: "
        (ask_instance client (wait_for_instance_status i.id offline))
    done tt
  prepare_resize i offline = done tt
  prepare_resize i _ = act client (shutdown_instance i.id)

  abbrev pub fail_if : Bool → Run Ack
  fail_if true = fail "Error resizing disk on instance"
  fail_if false = done tt

  abbrev pub confirm_resize : Instance → Disk → ℕ → Run Ack
  confirm_resize i disk target_size = do
    updated_disk ←
        or_fail "Error waiting disk on instance to be ready: "
          (ask_disk client (wait_for_instance_disk_ready i.id disk.id))
    fail_if (updated_disk.size != target_size)

  abbrev pub finish_resize : Instance → Disk → ℕ → Run Ack
  finish_resize i disk target_size = do
    or_fail "Error waiting for resize of Instance Disk: "
        (act client (wait_for_finished i.id disk_resize))
    confirm_resize i disk target_size

  abbrev pub resize_offline : Instance → Disk → ℕ → Run Ack
  resize_offline i disk target_size = do
    or_fail "Error waiting for Instance to go offline: "
        (ask_instance client (wait_for_instance_status i.id offline))
    or_fail "failed to initialize event poller: " (act client (new_event_poller i.id disk_resize))
    or_fail "Error resizing disk for Instance: "
        (act client (resize_instance_disk i.id disk.id target_size))
    finish_resize i disk target_size

  abbrev pub resize_within : Bool → Instance → Disk → ℕ → Run Ack
  resize_within true i disk target_size =
      fail "Error resizing disk: size exceeds disk size for Instance"
  resize_within false i disk target_size = do
    prepare_resize i i.status
    resize_offline i disk target_size

  unfoldable pub change_instance_disk_size : Instance → Disk → ℕ → Run Ack
  change_instance_disk_size i disk target_size =
      resize_within (ltb i.disk_capacity target_size) i disk target_size
