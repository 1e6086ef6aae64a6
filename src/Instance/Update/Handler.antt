-- ===== src/Instance/Update/Handler.antt =====
-- The calls of updateResource of linode/instance/resource.go.
use terraform_provider_linod.Prelude.Runs.{done, fail, lift, ◌>>=◌, ◌>>◌, or_fail}
use terraform_provider_linod.Prelude.{
  ℕ, String, Bool, true, false, not, ◌&&◌, ◌||◌, ltb, is_empty, Option, none, some, List, [],
  Result, ok, err, ◌!=◌, nat_eq, string_eq, if◌then◌else◌,
}
use terraform_provider_linod.Prelude.Dict.{Dict}
use terraform_provider_linod.Instance.{
  LinodeType, running, is_running, Instance, linode_reboot, InterfaceOptions, ConfigOptions,
  get_instance, list_instance_disks, list_instance_configs, new_event_poller, wait_for_finished,
  wait_for_instance_status, send_reboot, get_type, update_instance, enable_instance_backups,
  cancel_instance_backups, add_instance_ip_address, get_instance_config, update_instance_config,
  share_ip_addresses, get_instance_ip_addresses, Client, History, Run, Ack, act, ask_instance,
  ask_disks, ask_config, ask_configs, ask_type,
}
use terraform_provider_linod.Instance.Power.{
  boot_instance_sync, shutdown_instance_for_vpc_interface_update, handle_booted_update,
}
use terraform_provider_linod.Instance.Disks.{get_instance_disks}
use terraform_provider_linod.Instance.Disks.Update.{update_instance_disks}
use terraform_provider_linod.Instance.Resize.{
  assert_disk_config_fits_instance_type, apply_instance_type_change,
}
use terraform_provider_linod.Instance.Configs.Interfaces.{expand_config_interfaces}
use terraform_provider_linod.Instance.Configs.Update.{update_instance_configs}
use terraform_provider_linod.Instance.Placement.{reassign_placement_group, apply_instance_migration}
use terraform_provider_linod.Instance.Swap.{adjust_swap_size_if_needed}
use terraform_provider_linod.Instance.Update.{
  ResourceData, Provider, validate_booted, simple_options, is_simple_update, type_change,
  map_labels, choose_boot_config, vpc_interface_included, should_reboot,
}

abbrev pub is_null : Option Bool → Bool
is_null none = true
is_null (some b) = false

abbrev interfaces_only : List InterfaceOptions → ConfigOptions
interfaces_only interfaces = record {
  label = "";
  kernel = "";
  comments = "";
  virt_mode = "";
  run_level = "";
  memory_limit = 0;
  root_device = none;
  helpers = none;
  interfaces = some interfaces;
  devices = none;
}

module _ (provider : Provider) where
  abbrev pub client : Client
  client = provider.client

  abbrev pub run_if : Bool → Run Ack → Run Ack
  run_if true run = run
  run_if false run = done tt

  -- A step that gives the instance as it is now, where it is taken.
  abbrev pub refresh_if : Bool → Instance → Run Instance → Run Instance
  refresh_if true i run = run
  refresh_if false i run = done i

  abbrev pub join_group : ResourceData → Instance → Run Ack
  join_group d i = or_fail "failed to update Linode Placement Group: " (
      reassign_placement_group client provider.is_not_found i.id d.placement_group_id.old
        d.placement_group_id.new d.compliant_only)

  abbrev pub send_simple : ResourceData → Instance → Run Instance
  send_simple d i =
      or_fail "Error updating Instance: "
        (ask_instance client (update_instance i.id (simple_options d)))

  abbrev pub set_backups : Bool → Instance → Run Ack
  set_backups true i = act client (enable_instance_backups i.id)
  set_backups false i = act client (cancel_instance_backups i.id)

  abbrev pub add_private_ip : Bool → Instance → Run Ack
  add_private_ip false i = fail "Error removing private IP address for Instance"
  add_private_ip true i =
      or_fail "Error activating private networking on Instance: "
        (act client (add_instance_ip_address i.id false))

  abbrev pub migrate : ResourceData → Instance → Run Instance
  migrate d i =
      or_fail "failed to migrate instance: "
        (apply_instance_migration client d.migration_type i d.region.new)

  unfoldable pub get_instance_type_change : ResourceData → Run (LinodeType × LinodeType)
  get_instance_type_change d = do
    old_spec ← ask_type client (get_type d.type.old)
    new_spec ← ask_type client (get_type d.type.new)
    done (old_spec, new_spec)

  abbrev pub change_type : ResourceData → LinodeType → Instance → Run Instance
  change_type d new_spec i =
      or_fail "failed to change instance type: "
        (apply_instance_type_change client provider.ticks (type_change d) i new_spec)

  unfoldable pub apply_instance_disk_spec : ResourceData → LinodeType → Instance → Run Bool
  apply_instance_disk_spec d new_spec i = do
    assert_disk_config_fits_instance_type client d.disk.new new_spec
    update_instance_disks client provider.random i d.disk.old d.disk.new

  -- Explicit disks are changed where the configuration has no image.
  abbrev pub change_disks : Bool → ResourceData → LinodeType → Instance → Run Bool
  change_disks true d new_spec i =
      or_fail "failed to apply instance disk spec: " (apply_instance_disk_spec d new_spec i)
  change_disks false d new_spec i = done false

  unfoldable pub get_instance_disk_label_id_map : ResourceData → ℕ → Run (Dict String ℕ)
  get_instance_disk_label_id_map d instance_id = do
    disks ← get_instance_disks client instance_id
    lift (map_labels disks d.disk.new [])

  -- The error that is reported here does not say what went wrong.
  abbrev pub labels_or_fail :
      Result String (Dict String ℕ) × History → Result String (Dict String ℕ) × History
  labels_or_fail (ok labels, h) = (ok labels, h)
  labels_or_fail (err e, h) = (err "failed to get disk label to ID mappings", h)

  -- `BootInstanceAfterVPCInterfaceUpdate`
  abbrev pub boot_instance_after_vpc_interface_update : ℕ → ℕ → Run Ack
  boot_instance_after_vpc_interface_update id boot_config =
      or_fail "failed to boot instance after VPC interface change applied: "
        (boot_instance_sync client id boot_config)

  -- The change of the interfaces, which shuts the instance down where a VPC is among them, and its
  -- result, whether to reboot.
  abbrev pub replace_interfaces : ResourceData → ℕ → ℕ → Bool → List InterfaceOptions → Run Bool
  replace_interfaces d id boot_config power_off_required interfaces = do
    i ←
        or_fail "Error fetching data about the current linode: "
          (ask_instance client (get_instance id))
    run_if power_off_required
        (shutdown_instance_for_vpc_interface_update client provider.skip_implicit_reboots id)
    or_fail "failed to set boot config interfaces: "
        (ask_config client (update_instance_config i.id boot_config (interfaces_only interfaces)))
    run_if (is_null d.booted && power_off_required && is_running i.status)
        (boot_instance_after_vpc_interface_update id boot_config)
    done (not power_off_required)

  abbrev pub change_interfaces : Bool → ResourceData → ℕ → ℕ → Bool → Run Bool
  change_interfaces false d id boot_config reboot = done reboot
  change_interfaces true d id boot_config reboot = do
    let interfaces = expand_config_interfaces d.interface.new
    config ←
        or_fail "failed to get config: " (ask_config client (get_instance_config id boot_config))
    replace_interfaces d id boot_config (vpc_interface_included config.purposes interfaces)
        interfaces

  abbrev pub share_ips : ResourceData → ℕ → Run Ack
  share_ips d instance_id =
      or_fail "failed to share ipv4 addresses with instance: "
        (act client (share_ip_addresses instance_id d.shared_ipv4.new))

  abbrev pub reboot : ℕ → ℕ → ℕ → Run Ack
  reboot id instance_id boot_config = do
    or_fail "failed to initialize event poller: " (act client (new_event_poller id linode_reboot))
    or_fail "Error rebooting Instance: " (act client (send_reboot instance_id boot_config))
    or_fail "Error waiting for Instance to finish rebooting: "
        (act client (wait_for_finished id linode_reboot))
    or_fail "Timed-out waiting for Linode instance to boot: "
        (ask_instance client (wait_for_instance_status instance_id running))
    done tt

  -- readResource, as far as it calls the API.
  abbrev pub read_found : ℕ → Run Ack
  read_found id = do
    or_fail "failed to get instance networking: " (act client (get_instance_ip_addresses id))
    or_fail "failed to get instance disks: " (ask_disks client (list_instance_disks id))
    or_fail "failed to get instance configs: " (ask_configs client (list_instance_configs id))
    done tt

  abbrev pub read_after : Result String Instance × History → ℕ → Result String Ack × History
  read_after (ok i, h) id = read_found id h
  read_after (err e, h) id =
      if provider.is_not_found e then (ok tt, h) else fail "failed to get instance: " h

  unfoldable pub read_resource : ℕ → Run Ack
  read_resource id h = read_after (ask_instance client (get_instance id) h) id

  -- From the configs on.
  abbrev pub update_configs_and_boot : ResourceData → ℕ → Instance → Bool → Run Ack
  update_configs_and_boot d id i wanted = do
    labels ← (λ h. labels_or_fail (get_instance_disk_label_id_map d i.id h))
    updated ←
        update_instance_configs client provider.schedule i.id d.id d.config.old d.config.new labels
          d.boot_config_label
    boot_config ← lift (choose_boot_config d.boot_config_label updated.1.0 updated.1.1)
    wanted' ← change_interfaces d.interface.has_change d id boot_config (wanted || updated.0)
    run_if d.shared_ipv4.has_change (share_ips d i.id)
    run_if
        (should_reboot d.booted provider.skip_implicit_reboots wanted'
          && not (is_empty labels)
          && not (is_empty updated.1.0)
          && ltb 0 boot_config)
        (reboot id i.id boot_config)
    or_fail "failed to handle booted update: "
        (handle_booted_update client d.booted i.id boot_config)
    read_resource id

  -- The type and the disks: more disk space is there before the disks change, and less after it.
  abbrev pub update_disks : ResourceData → ℕ → Instance → Bool → LinodeType × LinodeType → Run Ack
  update_disks d id i wanted specs = do
    let upsized = ltb specs.0.disk_capacity specs.1.disk_capacity
    larger ← refresh_if upsized i (change_type d specs.1 i)
    changed_disks ← change_disks d.image_is_null d specs.1 larger
    sized ←
        refresh_if (specs.0.id != specs.1.id && not upsized) larger (change_type d specs.1 larger)
    changed_swap ← adjust_swap_size_if_needed client sized d.swap_size
    update_configs_and_boot d id sized (wanted || upsized || changed_disks || changed_swap)

  unfoldable pub update_resource : ResourceData → Run Ack
  update_resource d = do
    id ← or_fail "Error parsing Linode Instance ID as int: " (lift d.id)
    or_fail "failed to validate: " (lift (validate_booted d))
    found ←
        or_fail "Error fetching data about the current linode: "
          (ask_instance client (get_instance id))
    run_if d.placement_group_id.has_change (join_group d found)
    updated ← refresh_if (is_simple_update d) found (send_simple d found)
    run_if d.backups_enabled.has_change (set_backups d.backups_enabled.new updated)
    run_if d.private_ip.has_change (add_private_ip d.private_ip.new updated)
    moved ← refresh_if d.region.has_change updated (migrate d updated)
    specs ← or_fail "Error getting resize info for instance: " (get_instance_type_change d)
    update_disks d id moved d.private_ip.has_change specs
