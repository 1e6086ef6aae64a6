-- ===== src/Instance/Tests/Configs.antt =====
-- The configs and their volumes, at concrete inputs.
use terraform_provider_linod.Prelude.Runs.{Made}
use terraform_provider_linod.Prelude.Runs.{after, explained, Every}
use terraform_provider_linod.Prelude.{
  ℕ, String, Bool, ◌≡◌, refl, none, some, List, [], ◌∷◌, Result, ok, string_eq,
}
use mathlib.Core.List.Perm
use terraform_provider_linod.Prelude.Dict.{get, put, delete}
use terraform_provider_linod.Instance.{ConfigDeviceMap, InstanceConfig, History, Ack}
use terraform_provider_linod.Instance.Configs.{
  DeviceSpec, DeviceSlots, no_devices, change_instance_config_device, empty_instance_config_device,
  expand_instance_config_device, assign_config_device, fill_slot, fill_slots,
  expand_instance_config_device_map, empty_config_device_map,
}
use terraform_provider_linod.Instance.Configs.Slots.{
  sdb, last_device, blocks_of, expand_instance_config_device_map_slots,
}
use terraform_provider_linod.Instance.Configs.Volumes.{
  volume_detacher, volume_detacher_ignore_attached, detach_each, join_errors, detach_config_volumes,
}
use terraform_provider_linod.Instance.Configs.Detached.{Waited, detach_config_volumes_waits}
use terraform_provider_linod.Instance.Configs.Attached.{
  DetachAllowed, detach_config_volumes_ignores,
}
use terraform_provider_linod.Instance.Configs.Options.{ConfigSpec, create_devices, update_options}
use terraform_provider_linod.Instance.Configs.Update.{
  create_instance_configs_from_set, update_configs, index_configs, add_created, boot_interfaces,
  old_boot_interfaces, delete_instance_configs, update_instance_configs,
}
use terraform_provider_linod.Instance.Configs.Safety.{update_instance_configs_deletes}
use terraform_provider_linod.Instance.Configs.Calls.{DeleteAllowed}
use terraform_provider_linod.Instance.Tests.{client, configs, answers_labels}

abbrev disk_block : DeviceSpec
disk_block = record { disk_id = none; volume_id = none; disk_label = some "swap" }

abbrev volume_block : DeviceSpec
volume_block = record { disk_id = none; volume_id = some 31; disk_label = none }

abbrev slots : DeviceSlots
slots = ("sda", volume_block ∷ []) ∷ ("sdb", disk_block ∷ []) ∷ []

abbrev two_devices : ConfigDeviceMap
two_devices = record no_devices {
  sda = some (record { disk_id = 0; volume_id = 31 });
  sdb = some (record { disk_id = 12; volume_id = 0 });
}

expands : expand_instance_config_device_map slots (("swap", 12) ∷ []) ≡ ok (some two_devices)
unfolding expand_instance_config_device_map fill_slots fill_slot assign_config_device
    change_instance_config_device expand_instance_config_device empty_instance_config_device get
expands = refl

expand_instance_config_device_map_slots_example :
    some (record { disk_id = 12; volume_id = 0 })
    ≡ last_device (("swap", 12) ∷ []) (blocks_of slots "sdb") none
unfolding get
expand_instance_config_device_map_slots_example =
    expand_instance_config_device_map_slots (("swap", 12) ∷ []) sdb slots two_devices
      (refl, (refl, tt)) expands

abbrev in_order : History → List ℕ → List ℕ
in_order h vs = vs

run_detach : Result String Ack × History
unfolding detach_config_volumes detach_each join_errors volume_detacher after
run_detach = detach_config_volumes in_order two_devices (volume_detacher client) []

detach_config_volumes_waits_example : Made (Waited client 31) run_detach.1
unfolding run_detach
detach_config_volumes_waits_example =
    detach_config_volumes_waits client in_order (λ h vs. Perm.refl vs) two_devices 31 []
      run_detach.1 tt refl refl

detach_config_volumes_ignores_example :
    Every
      (DetachAllowed client 1)
      (detach_config_volumes in_order two_devices
        (volume_detacher_ignore_attached client (ok 1))
        []).1
detach_config_volumes_ignores_example =
    detach_config_volumes_ignores client 1 in_order two_devices [] tt

abbrev config_spec : String → ConfigSpec
config_spec label = record {
  label = label;
  kernel = "linode/latest";
  comments = "";
  virt_mode = "paravirt";
  run_level = "default";
  memory_limit = 0;
  root_device = "/dev/sda";
  helpers = none;
  interface = some [];
  devices = some (slots ∷ []);
}

abbrev old_configs : List ConfigSpec
old_configs = config_spec "main" ∷ config_spec "rescue" ∷ []

abbrev new_configs : List ConfigSpec
new_configs = config_spec "main" ∷ config_spec "other" ∷ []

run_configs : Result String (Bool × (List (String × ℕ) × List InstanceConfig)) × History
unfolding update_instance_configs update_configs delete_instance_configs index_configs add_created
    create_instance_configs_from_set create_devices update_options boot_interfaces
    old_boot_interfaces empty_config_device_map expand_instance_config_device_map fill_slots
    fill_slot assign_config_device change_instance_config_device expand_instance_config_device
    empty_instance_config_device detach_config_volumes detach_each join_errors volume_detacher
    volume_detacher_ignore_attached after explained get put delete
run_configs =
    update_instance_configs client in_order 1 (ok 1) old_configs new_configs (("swap", 12) ∷ [])
      "main" []

-- The config "rescue" is deleted.
configs_left :
    (result : _) × (run_configs.0 ≡ ok result) × (result.1.0 ≡ ("main", 41) ∷ ("other", 43) ∷ [])
unfolding run_configs
configs_left = (_, refl, refl)

update_instance_configs_deletes_example :
    Every
      (DeleteAllowed 1 configs old_configs new_configs)
      (update_instance_configs client in_order 1
        (ok 1)
        old_configs
        new_configs
        (("swap", 12) ∷ [])
        "main"
        []).1
update_instance_configs_deletes_example =
    update_instance_configs_deletes client in_order 1 (ok 1) configs old_configs new_configs
      (("swap", 12) ∷ []) "main" refl answers_labels (refl, (refl, tt))
