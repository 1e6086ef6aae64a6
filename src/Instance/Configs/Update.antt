-- ===== src/Instance/Configs/Update.antt =====
-- createInstanceConfigsFromSet, updateInstanceConfigs and deleteInstanceConfigs of
-- linode/instance/helpers.go. A panic is an error here, and what the functions return beside an error
-- is not modelled.
use terraform_provider_linod.Prelude.Runs.{done, lift, ◌>>=◌, ◌>>◌, or_fail}
use terraform_provider_linod.Prelude.{
  ℕ, String, Bool, true, false, not, Option, none, some, List, [], ◌∷◌, ◌++◌, map, Result, ok, err,
  ◌==◌, nat_eq, string_eq, option_eq, list_eq, if◌then◌else◌,
}
use terraform_provider_linod.Prelude.Dict.{Dict, get, put, delete, has_key}
use terraform_provider_linod.Instance.{
  ConfigDeviceMap, interface_eq, InstanceConfig, list_instance_configs, create_instance_config,
  update_instance_config, delete_instance_config, Client, History, Run, Ack, act, ask_config,
  ask_configs,
}
use terraform_provider_linod.Instance.Configs.Volumes.{
  VolumeDetacher, volume_detacher, volume_detacher_ignore_attached, detach_config_volumes,
}
use terraform_provider_linod.Instance.Configs.Options.{
  ConfigSpec, create_devices, create_options, update_options, addresses,
}

-- What the loop over the new configs collects.
pub record ConfigUpdates : Type 0 where
  pub updated_config_map : Dict String ℕ
  pub updated_configs : List InstanceConfig
  pub new_boot_interfaces : List String

-- The addresses of the interfaces of the config that is booted.
unfoldable pub boot_interfaces : String → ConfigSpec → List String
boot_interfaces boot_label config =
    if config.label == boot_label then addresses config.interface else []

unfoldable pub old_boot_interfaces : String → List ConfigSpec → List String
old_boot_interfaces boot_label [] = []
old_boot_interfaces boot_label (config ∷ configs) =
    boot_interfaces boot_label config ++ old_boot_interfaces boot_label configs

unfoldable pub index_configs :
    List InstanceConfig → Dict String InstanceConfig → Result String (Dict String InstanceConfig)
index_configs [] config_map = ok config_map
index_configs (config ∷ configs) config_map =
    let rest = index_configs configs (put config.label config config_map) in
    if has_key config.label config_map then err "Error indexing Instance Configs: Label" else rest

unfoldable pub add_created : Dict ℕ InstanceConfig → ConfigUpdates → ConfigUpdates
add_created [] updates = updates
add_created ((id, config) ∷ configs) updates = add_created configs (record updates {
  updated_config_map = put config.label config.id updates.updated_config_map;
  updated_configs = updates.updated_configs ++ config ∷ [];
})

module _ (client : Client) where
  abbrev pub delete_listed :
      ℕ → String → Bool → Option InstanceConfig → Dict String ℕ → Run (Dict String ℕ)
  delete_listed instance_id old_label true listed new_config_labels = done new_config_labels
  delete_listed instance_id old_label false none new_config_labels = done new_config_labels
  delete_listed instance_id old_label false (some listed_config) new_config_labels = do
    act client (delete_instance_config instance_id listed_config.id)
    done (delete old_label new_config_labels)

  unfoldable pub delete_instance_configs :
      ℕ → List String → Dict String ℕ → Dict String InstanceConfig → Run (Dict String ℕ)
  delete_instance_configs instance_id [] new_config_labels config_map = done new_config_labels
  delete_instance_configs instance_id (old_label ∷ old_labels) new_config_labels config_map = do
    left ←
        delete_listed instance_id old_label (has_key old_label new_config_labels)
          (get old_label config_map) new_config_labels
    delete_instance_configs instance_id old_labels left config_map

module _ (client : Client) (schedule : History → List ℕ → List ℕ) where
  unfoldable pub create_instance_configs_from_set :
      ℕ
      → Dict String ℕ
      → VolumeDetacher
      → List ConfigSpec
      → Dict ℕ InstanceConfig
      → Run (Dict ℕ InstanceConfig)
  create_instance_configs_from_set instance_id labels detacher [] config_id_map = done config_id_map
  create_instance_configs_from_set instance_id labels detacher (config ∷ cset) config_id_map = do
    devices ← lift (create_devices labels config)
    detach_config_volumes schedule devices detacher
    created ←
        or_fail "Error creating Instance Config: "
          (ask_config client (create_instance_config instance_id (create_options config devices)))
    create_instance_configs_from_set instance_id labels detacher cset
        (put created.id created config_id_map)

  abbrev pub detach_changed : Result String ℕ → Option ConfigDeviceMap → Run Ack
  detach_changed resource_id none = done tt
  detach_changed resource_id (some devices) =
      detach_config_volumes schedule devices (volume_detacher_ignore_attached client resource_id)

  -- One round of the loop over the new configs, by whether the instance has one under its label.
  abbrev pub update_or_create :
      ℕ
      → Result String ℕ
      → Dict String ℕ
      → String
      → Option InstanceConfig
      → ConfigSpec
      → ConfigUpdates
      → Run ConfigUpdates
  update_or_create instance_id resource_id labels boot_label (some existing_config) tfc updates = do
    options ← lift (update_options labels existing_config tfc)
    detach_changed resource_id options.devices
    updated ←
        or_fail "Error updating Instance Config: "
          (ask_config client (update_instance_config instance_id existing_config.id options))
    done (record updates {
      updated_config_map = put updated.label updated.id updates.updated_config_map;
      new_boot_interfaces = updates.new_boot_interfaces ++ boot_interfaces boot_label tfc;
    })
  update_or_create instance_id resource_id labels boot_label none tfc updates = do
    created ←
        create_instance_configs_from_set instance_id labels (volume_detacher client) (tfc ∷ []) []
    done (add_created created updates)

  unfoldable pub update_configs :
      ℕ
      → Result String ℕ
      → Dict String ℕ
      → String
      → Dict String InstanceConfig
      → List ConfigSpec
      → ConfigUpdates
      → Run ConfigUpdates
  update_configs instance_id resource_id labels boot_label config_map [] updates = done updates
  update_configs instance_id resource_id labels boot_label config_map (tfc ∷ tf_configs) updates =
      do
        updates' ←
            update_or_create instance_id resource_id labels boot_label (get tfc.label config_map)
              tfc updates
        update_configs instance_id resource_id labels boot_label config_map tf_configs updates'

  -- The first result is whether to reboot.
  unfoldable pub update_instance_configs :
      ℕ
      → Result String ℕ
      → List ConfigSpec
      → List ConfigSpec
      → Dict String ℕ
      → String
      → Run (Bool × (Dict String ℕ × List InstanceConfig))
  update_instance_configs instance_id resource_id tf_configs_old tf_configs_new labels boot_label =
      do
        configs ←
            or_fail "Error fetching the config for Instance: "
              (ask_configs client (list_instance_configs instance_id))
        config_map ← lift (index_configs configs [])
        updates ←
            update_configs instance_id resource_id labels boot_label config_map tf_configs_new
              (record { updated_config_map = []; updated_configs = []; new_boot_interfaces = [] })
        updated_config_map ←
            delete_instance_configs client instance_id
              (map (λ (c : ConfigSpec). c.label) tf_configs_old) updates.updated_config_map
              config_map
        done (
          not (old_boot_interfaces boot_label tf_configs_old == updates.new_boot_interfaces),
          (updated_config_map, updates.updated_configs),
        )
