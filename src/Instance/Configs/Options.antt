-- ===== src/Instance/Configs/Options.antt =====
-- The options to create and to update a config: the first halves of createInstanceConfigsFromSet and of
-- the loop of updateInstanceConfigs in linode/instance/helpers.go. A panic is an error here.
use terraform_provider_linod.Prelude.{
  ℕ, String, Option, none, some, List, [], ◌∷◌, map, Slice, Result, ok, err, ◌==◌, nat_eq,
  string_eq, option_eq, list_eq, if◌then◌else◌,
}
use terraform_provider_linod.Prelude.{◌>>=◌ as ◌and_then◌}
use terraform_provider_linod.Prelude.Dict.{Dict}
use terraform_provider_linod.Instance.{
  ConfigDeviceMap, ConfigHelpers, InterfaceOptions, interface_eq, ConfigOptions, InstanceConfig,
}
use terraform_provider_linod.Instance.Configs.{
  DeviceSlots, no_devices, empty_config_device_map, expand_instance_config_device_map,
}
use terraform_provider_linod.Instance.Configs.Interfaces.{
  InterfaceBlock, text_or_empty, expand_config_interfaces,
}

-- A `config` block. The schema gives each of its `helpers` every key.
pub record ConfigSpec : Type 0 where
  pub label : String
  pub kernel : String
  pub comments : String
  pub virt_mode : String
  pub run_level : String
  pub memory_limit : ℕ
  pub root_device : String
  pub helpers : Option (List ConfigHelpers)
  pub interface : Option (List InterfaceBlock)
  pub devices : Option (List DeviceSlots)

abbrev last_or {ℓ} : {A : Type ℓ} → Option A → List A → Option A
last_or before [] = before
last_or before (x ∷ xs) = last_or (some x) xs

abbrev last_helpers : Option (List ConfigHelpers) → Option ConfigHelpers
last_helpers none = none
last_helpers (some helpers) = last_or none helpers

abbrev last_devices :
    Dict String ℕ → List DeviceSlots → ConfigDeviceMap → Result String ConfigDeviceMap
last_devices labels [] devices = ok devices
last_devices labels (device ∷ rest) devices =
    expand_instance_config_device_map device labels and_then λ expanded. elim expanded [
      | none ↦ err "nil pointer dereference"
      | some conf_devices ↦ last_devices labels rest conf_devices
    ]

unfoldable pub create_devices : Dict String ℕ → ConfigSpec → Result String ConfigDeviceMap
create_devices labels config = elim config.devices [
  | none ↦ err "Error converting config devices"
  | some devices ↦ last_devices labels devices no_devices
]

abbrev mapped_interfaces : Option (List InterfaceBlock) → Slice InterfaceOptions
mapped_interfaces none = none
mapped_interfaces (some interfaces) = some (expand_config_interfaces interfaces)

abbrev pub create_options : ConfigSpec → ConfigDeviceMap → ConfigOptions
create_options config devices = record {
  label = config.label;
  kernel = config.kernel;
  comments = config.comments;
  virt_mode = config.virt_mode;
  run_level = config.run_level;
  memory_limit = config.memory_limit;
  root_device = if config.root_device == "" then none else some config.root_device;
  helpers = last_helpers config.helpers;
  interfaces = mapped_interfaces config.interface;
  devices = some devices;
}

-- The first block, which must be there if the key is.
abbrev pub first_block {ℓ} : {A : Type ℓ} → Option A → Option (List A) → Result String (Option A)
first_block otherwise none = ok otherwise
first_block otherwise (some []) = err "index out of range"
first_block otherwise (some (block ∷ blocks)) = ok (some block)

abbrev drop_empty : Option ConfigDeviceMap → Option ConfigDeviceMap
drop_empty none = none
drop_empty (some devices) = if empty_config_device_map devices then none else some devices

abbrev pub expand_first :
    Dict String ℕ → Option DeviceSlots → Result String (Option ConfigDeviceMap)
expand_first labels none = ok none
expand_first labels (some slots) =
    expand_instance_config_device_map slots labels and_then λ devices. ok (drop_empty devices)

abbrev given_interfaces : Option (List InterfaceBlock) → List InterfaceOptions
given_interfaces none = []
given_interfaces (some interfaces) = expand_config_interfaces interfaces

-- The options of an update start from those of the config; interfaces that are the same are left out.
abbrev pub overlaid :
    InstanceConfig → ConfigSpec → Option ConfigHelpers → Option ConfigDeviceMap → ConfigOptions
overlaid existing_config tfc helpers devices =
    let options = existing_config.update_options in
    let interfaces = given_interfaces tfc.interface in
    record options {
      kernel = tfc.kernel;
      run_level = tfc.run_level;
      virt_mode = tfc.virt_mode;
      root_device = some tfc.root_device;
      comments = tfc.comments;
      memory_limit = tfc.memory_limit;
      helpers = helpers;
      interfaces = if some interfaces == options.interfaces then none else some interfaces;
      devices = devices;
    }

unfoldable pub update_options :
    Dict String ℕ → InstanceConfig → ConfigSpec → Result String ConfigOptions
update_options labels existing_config tfc =
    first_block existing_config.update_options.helpers tfc.helpers and_then λ helpers.
    first_block none tfc.devices and_then λ slots.
    expand_first labels slots and_then λ devices. ok (overlaid existing_config tfc helpers devices)

abbrev pub addresses : Option (List InterfaceBlock) → List String
addresses none = []
addresses (some interfaces) = map (λ (i : InterfaceBlock). text_or_empty i.ipam_address) interfaces
