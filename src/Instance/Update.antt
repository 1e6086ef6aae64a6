-- ===== src/Instance/Update.antt =====
-- updateResource of linode/instance/resource.go, from step to step, with the functions of helpers.go that
-- only it calls. A change that the configuration makes is told by the SDK; the numbers and lists of
-- the data are those of the new configuration.
pub mod Handler
pub mod Quiet
pub mod Parts
pub mod Moves
pub mod Justified
pub mod Explicit
pub mod Sent
pub mod Booted
pub mod Reaches
use terraform_provider_linod.Prelude.Runs.{done, fail, lift, ◌>>=◌, ◌>>◌, or_fail}
use terraform_provider_linod.Prelude.{
  ℕ, zero, suc, String, Bool, true, false, not, ◌&&◌, ◌||◌, ltb, is_empty, any, Option, none, some,
  List, [], ◌∷◌, map, Result, ok, err, ◌==◌, ◌!=◌, nat_eq, string_eq, if◌then◌else◌,
}
use terraform_provider_linod.Prelude.Dict.{Dict, get, put}
use terraform_provider_linod.Instance.{
  LinodeType, Status, running, is_running, Instance, Disk, Migration, linode_reboot, Alerts,
  InstanceUpdateOptions, InterfaceOptions, ConfigOptions, InstanceConfig, get_instance,
  list_instance_disks, list_instance_configs, new_event_poller, wait_for_finished,
  wait_for_instance_status, send_reboot, get_type, update_instance, enable_instance_backups,
  cancel_instance_backups, add_instance_ip_address, get_instance_config, update_instance_config,
  share_ip_addresses, get_instance_ip_addresses, Client, History, Run, Ack, act, ask_instance,
  ask_disks, ask_config, ask_configs, ask_type,
}
use terraform_provider_linod.Instance.Power.{
  boot_instance_sync, shutdown_instance_for_vpc_interface_update, handle_booted_update,
}
use terraform_provider_linod.Instance.Disks.{DiskSpec, get_instance_disks}
use terraform_provider_linod.Instance.Disks.Update.{update_instance_disks}
use terraform_provider_linod.Instance.Resize.{
  TypeChange, assert_disk_config_fits_instance_type, apply_instance_type_change,
}
use terraform_provider_linod.Instance.Configs.Interfaces.{InterfaceBlock, expand_config_interfaces}
use terraform_provider_linod.Instance.Configs.Options.{ConfigSpec}
use terraform_provider_linod.Instance.Configs.Update.{update_instance_configs}
use terraform_provider_linod.Instance.Placement.{reassign_placement_group, apply_instance_migration}
use terraform_provider_linod.Instance.Swap.{Change, adjust_swap_size_if_needed}

-- What the update reads of the resource's data and its raw configuration. A `booted` that is null in the
-- configuration is `none`.
pub record ResourceData : Type 0 where
  pub id : Result String ℕ
  pub label : Change String
  pub group : Change String
  pub maintenance_policy : Change String
  pub tags : Change (List String)
  pub watchdog_enabled : Change Bool
  pub alerts : Change Alerts
  pub placement_group_id : Change ℕ
  pub compliant_only : Option Bool
  pub backups_enabled : Change Bool
  pub private_ip : Change Bool
  pub region : Change String
  pub migration_type : Migration
  pub type : Change String
  pub resize_disk : Bool
  pub image : String
  pub image_is_null : Bool
  pub has_disk_blocks : Bool
  pub disk : Change (List DiskSpec)
  pub swap_size : Change ℕ
  pub config : Change (List ConfigSpec)
  pub boot_config_label : String
  pub booted : Option Bool
  pub interface : Change (List InterfaceBlock)
  pub shared_ipv4 : Change (List String)

-- The client's context: Go's randomness, the errors of linodego, the order of goroutines, the ticks
-- until a deadline, and the provider's configuration.
pub record Provider : Type 0 where
  pub client : Client
  pub random : Result String String
  pub is_not_found : String → Bool
  pub schedule : History → List ℕ → List ℕ
  pub ticks : ℕ
  pub skip_implicit_reboots : Bool

unfoldable pub validate_booted : ResourceData → Result String Ack
validate_booted d = elim d.booted [
  | none ↦ ok tt
  | some booted ↦
      if booted && d.image == "" && (is_empty d.disk.new || is_empty d.config.new)
      then err "booted requires an image or disk/config be defined"
      else ok tt
]

abbrev pub if_changed : {A B : Type 0} → Change A → B → Option B
if_changed change b = if change.has_change then some b else none

abbrev pub simple_options : ResourceData → InstanceUpdateOptions
simple_options d = record {
  label = if d.label.has_change then d.label.new else "";
  group = if_changed d.group d.group.new;
  maintenance_policy = if_changed d.maintenance_policy d.maintenance_policy.new;
  tags = if_changed d.tags d.tags.new;
  watchdog_enabled = if_changed d.watchdog_enabled d.watchdog_enabled.new;
  alerts = if_changed d.alerts d.alerts.new;
}

-- `simpleUpdate`
unfoldable pub is_simple_update : ResourceData → Bool
is_simple_update d =
    d.label.has_change || d.group.has_change || d.maintenance_policy.has_change || d.tags.has_change
    || d.watchdog_enabled.has_change || d.alerts.has_change

abbrev pub type_change : ResourceData → TypeChange
type_change d = record {
  resize_disk = d.resize_disk;
  migration_type = d.migration_type;
  explicit_disks = d.image_is_null && d.has_disk_blocks;
  new_disks = d.disk.new;
}

-- The loop of getInstanceDiskLabelIDMap.
unfoldable pub map_labels :
    Dict String Disk → List DiskSpec → Dict String ℕ → Result String (Dict String ℕ)
map_labels disks [] label_id_map = ok label_id_map
map_labels disks (spec ∷ specs) label_id_map = elim (get spec.label disks) [
  | none ↦ err "could not map disk label to an ID; not found"
  | some disk ↦ map_labels disks specs (put spec.label disk.id label_id_map)
]

unfoldable pub choose_boot_config : String → Dict String ℕ → List InstanceConfig → Result String ℕ
choose_boot_config label config_map configs =
    if label != ""
    then (elim (get label config_map) [
      | some found ↦ ok found
      | none ↦ err "Error setting boot_config_label: Config label not found"
    ])
    else (elim configs [ [] ↦ ok 0 | config ∷ _ ↦ ok config.id ])

abbrev is_vpc : String → Bool
is_vpc purpose = purpose == "vpc"

unfoldable pub vpc_interface_included : List String → List InterfaceOptions → Bool
vpc_interface_included purposes interfaces =
    any is_vpc purposes || any (λ (ni : InterfaceOptions). is_vpc ni.purpose) interfaces

-- A reboot that is wanted is made unless the instance should be off or reboots are skipped.
unfoldable pub should_reboot : Option Bool → Bool → Bool → Bool
should_reboot (some false) skip wanted = false
should_reboot (some true) skip wanted = wanted && not skip
should_reboot none skip wanted = wanted && not skip
