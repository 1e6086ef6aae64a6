-- ===== src/Instance/Configs.antt =====
-- The devices of an instance's configs: linode/instance/expand.go, and changeInstanceConfigDevice,
-- emptyConfigDeviceMap and assignConfigDevice of helpers.go. The children have the interfaces, the
-- volumes, and the update of the configs.

pub mod Slots
pub mod Interfaces
pub mod Volumes
pub mod Detached
pub mod Options
pub mod Update
pub mod Calls
pub mod Attached
pub mod Labels
pub mod Safety
use terraform_provider_linod.Prelude.{
  ℕ, String, Bool, true, false, not, ◌&&◌, Option, none, some, List, [], ◌∷◌, Result, ok, err, ◌==◌,
  nat_eq, string_eq, ltb, if◌then◌else◌,
}
use terraform_provider_linod.Prelude.{◌>>=◌ as ◌and_then◌}
use terraform_provider_linod.Prelude.Dict.{Dict, get}
use terraform_provider_linod.Instance.{ConfigDevice, ConfigDeviceMap}

-- A device block: `none` is a key that is absent.
pub record DeviceSpec : Type 0 where
  pub disk_id : Option ℕ
  pub volume_id : Option ℕ
  pub disk_label : Option String

abbrev pub no_devices : ConfigDeviceMap
no_devices = record {
  sda = none;
  sdb = none;
  sdc = none;
  sdd = none;
  sde = none;
  sdf = none;
  sdg = none;
  sdh = none;
}

unfoldable pub empty_instance_config_device : ConfigDevice → Bool
empty_instance_config_device dev = dev.disk_id == 0 && dev.volume_id == 0

-- The switch: its cases are distinct names.
abbrev pub set_slot : ConfigDeviceMap → String → Option ConfigDevice → ConfigDeviceMap
set_slot device_map named_slot device = record {
  sda = if named_slot == "sda" then device else device_map.sda;
  sdb = if named_slot == "sdb" then device else device_map.sdb;
  sdc = if named_slot == "sdc" then device else device_map.sdc;
  sdd = if named_slot == "sdd" then device else device_map.sdd;
  sde = if named_slot == "sde" then device else device_map.sde;
  sdf = if named_slot == "sdf" then device else device_map.sdf;
  sdg = if named_slot == "sdg" then device else device_map.sdg;
  sdh = if named_slot == "sdh" then device else device_map.sdh;
}

abbrev pub nonempty_device : Option ConfigDevice → Option ConfigDevice
nonempty_device none = none
nonempty_device (some device) = if empty_instance_config_device device then none else some device

unfoldable pub change_instance_config_device :
    ConfigDeviceMap → String → Option ConfigDevice → ConfigDeviceMap
change_instance_config_device device_map named_slot device =
    set_slot device_map named_slot (nonempty_device device)

abbrev pub drives : ConfigDeviceMap → List (Option ConfigDevice)
drives dmap =
    dmap.sda ∷ dmap.sdb ∷ dmap.sdc ∷ dmap.sdd ∷ dmap.sde ∷ dmap.sdf ∷ dmap.sdg ∷ dmap.sdh ∷ []

abbrev pub none_assigned : List (Option ConfigDevice) → Bool
none_assigned [] = true
none_assigned (none ∷ drives) = none_assigned drives
none_assigned (some drive ∷ drives) =
    let rest = none_assigned drives in
    if not (empty_instance_config_device drive) then false else rest

unfoldable pub empty_config_device_map : ConfigDeviceMap → Bool
empty_config_device_map dmap = none_assigned (drives dmap)

abbrev positive : Option ℕ → Option ℕ
positive none = none
positive (some n) = if ltb 0 n then some n else none

unfoldable pub expand_instance_config_device : DeviceSpec → Option ConfigDevice
expand_instance_config_device m = elim (positive m.disk_id) [
  | some disk_id ↦ some (record { disk_id = disk_id; volume_id = 0 })
  | none ↦ elim (positive m.volume_id) [
    | some volume_id ↦ some (record { disk_id = 0; volume_id = volume_id })
    | none ↦ none
  ]
]

-- A label names the disk, and stands before an identifier.
abbrev labelled : DeviceSpec → Dict String ℕ → Option String → Result String DeviceSpec
labelled dev disk_id_label_map none = ok dev
labelled dev disk_id_label_map (some label) =
    if label == "" then ok dev else elim (get label disk_id_label_map) [
      | some disk_id ↦ ok (record dev { disk_id = some disk_id })
      | none ↦ err "Error mapping disk label to ID"
    ]

abbrev pub device_or_zero : Option ConfigDevice → ConfigDevice
device_or_zero none = record { disk_id = 0; volume_id = 0 }
device_or_zero (some device) = device

-- The device that is assigned; it starts as the zero value.
unfoldable pub assign_config_device : DeviceSpec → Dict String ℕ → Result String ConfigDevice
assign_config_device dev disk_id_label_map =
    labelled dev disk_id_label_map dev.disk_label and_then λ dev'.
    ok (device_or_zero (expand_instance_config_device dev'))

-- `config.*.devices`: a list of device blocks for each slot.
abbrev pub DeviceSlots : Type 0
DeviceSlots = Dict String (List DeviceSpec)

unfoldable pub fill_slot :
    Dict String ℕ → String → List DeviceSpec → ConfigDeviceMap → Result String ConfigDeviceMap
fill_slot labels k [] device_map = ok device_map
fill_slot labels k (dev ∷ dev_slots) device_map = assign_config_device dev labels and_then λ device.
    fill_slot labels k dev_slots (change_instance_config_device device_map k (some device))

unfoldable pub fill_slots :
    Dict String ℕ → DeviceSlots → ConfigDeviceMap → Result String ConfigDeviceMap
fill_slots labels [] device_map = ok device_map
fill_slots labels ((k, dev_slots) ∷ m) device_map =
    fill_slot labels k dev_slots device_map and_then λ device_map'. fill_slots labels m device_map'

unfoldable pub expand_instance_config_device_map :
    DeviceSlots → Dict String ℕ → Result String (Option ConfigDeviceMap)
expand_instance_config_device_map [] disk_id_label_map = ok none
expand_instance_config_device_map (entry ∷ m) disk_id_label_map =
    fill_slots disk_id_label_map (entry ∷ m) no_devices and_then λ device_map. ok (some device_map)
