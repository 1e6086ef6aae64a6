-- ===== src/Instance/Power.antt =====
-- The power state: linode/helper/instance.go, and the functions of linode/instance/helpers.go that
-- shut an instance down or boot it.
pub mod Reached
use terraform_provider_linod.Prelude.Runs.{done, fail, ◌>>=◌, ◌>>◌, or_fail}
use terraform_provider_linod.Prelude.{
  ℕ, String, Bool, true, false, not, ◌&&◌, ◌||◌, Option, none, some, List, [], ◌∷◌, Result, ok, err,
  if◌then◌else◌,
}
use terraform_provider_linod.Instance.{
  Status, offline, running, booting, rebooting, shutting_down, other, is_offline, is_running,
  Instance, Action, linode_boot, linode_reboot, linode_shutdown, Call, get_instance,
  new_event_poller, wait_for_finished, wait_for_instance_status, boot_instance, send_reboot,
  shutdown_instance, Client, Run, Ack, act, ask_instance,
}

-- Both `IsInstanceInBootedState` and `isInstanceBooted`.
unfoldable pub is_instance_in_booted_state : Status → Bool
is_instance_in_booted_state running = true
is_instance_in_booted_state rebooting = true
is_instance_in_booted_state booting = true
is_instance_in_booted_state _ = false

module _ (client : Client) where
  unfoldable pub boot_instance_sync : ℕ → ℕ → Run Ack
  boot_instance_sync instance_id config_id = do
    or_fail "failed to initialize event poller: "
        (act client (new_event_poller instance_id linode_boot))
    or_fail "failed to boot instance: " (act client (boot_instance instance_id config_id))
    or_fail "failed to wait for instance boot: "
        (act client (wait_for_finished instance_id linode_boot))

  unfoldable pub shut_down_instance_sync : ℕ → Run Ack
  shut_down_instance_sync instance_id = do
    or_fail "failed to initialize event poller: "
        (act client (new_event_poller instance_id linode_shutdown))
    or_fail "failed to shutdown instance: " (act client (shutdown_instance instance_id))
    or_fail "failed to wait for instance shutdown: "
        (act client (wait_for_finished instance_id linode_shutdown))

  abbrev pub wait_to_reach : ℕ → Status → Run Status
  wait_to_reach linode_id target = do
    i ←
        or_fail "failed to wait for instance to reach status: "
          (ask_instance client (wait_for_instance_status linode_id target))
    done i.status

  -- The switch on the status of the instance.
  abbrev pub settle : ℕ → Status → Run Status
  settle linode_id booting = wait_to_reach linode_id running
  settle linode_id rebooting = wait_to_reach linode_id running
  settle linode_id shutting_down = wait_to_reach linode_id offline
  settle linode_id running = done running
  settle linode_id offline = done offline
  settle linode_id (other s) = fail "cannot wait for instance to exit transient status"

  unfoldable pub wait_for_instance_non_transient_status : ℕ → Run Status
  wait_for_instance_non_transient_status linode_id = do
    i ← or_fail "failed to get instance: " (ask_instance client (get_instance linode_id))
    settle i.id i.status

  -- Boot or shut down where the status asks for it.
  abbrev pub boot_unless_running : ℕ → ℕ → Status → Bool → Run Ack
  boot_unless_running id config running wanted = done tt
  boot_unless_running id config _ true = boot_instance_sync id config
  boot_unless_running id config _ false = done tt

  abbrev pub stop_unless_offline : ℕ → Status → Bool → Run Ack
  stop_unless_offline id offline wanted = done tt
  stop_unless_offline id _ true = done tt
  stop_unless_offline id _ false = shut_down_instance_sync id

  abbrev pub reach_booted : ℕ → ℕ → Bool → Run Ack
  reach_booted id config booted = do
    status ← wait_for_instance_non_transient_status id
    boot_unless_running id config status booted
    stop_unless_offline id status booted

  -- `none` is a `booted` that is null in the configuration.
  unfoldable pub handle_booted_update : Option Bool → ℕ → ℕ → Run Ack
  handle_booted_update none instance_id config_id = done tt
  handle_booted_update (some booted) instance_id config_id =
      reach_booted instance_id config_id booted

  abbrev pub stop_safely : ℕ → Status → Run Ack
  stop_safely id offline = done tt
  stop_safely id _ = or_fail "failed to shutdown instance: " (shut_down_instance_sync id)

  unfoldable pub safe_shutdown_instance : ℕ → Run Ack
  safe_shutdown_instance instance_id = do
    status ←
        or_fail "failed waiting for instance to be in running or offline state: "
          (wait_for_instance_non_transient_status instance_id)
    stop_safely instance_id status

  unfoldable pub shutdown_instance_for_vpc_interface_update : Bool → ℕ → Run Ack
  shutdown_instance_for_vpc_interface_update true instance_id =
      fail
        "Adding, removing, and reordering a Linode VPC interface requires the implicit reboot of the Linode, please consider setting 'skip_implicit_reboots' to true in the Linode provider config."
  shutdown_instance_for_vpc_interface_update false instance_id = safe_shutdown_instance instance_id

  abbrev pub reboot_running : ℕ → Status → ℕ → ℕ → Run Ack
  reboot_running linode_id running entity_id boot_config = do
    or_fail "failed to initialize event poller: "
        (act client (new_event_poller entity_id linode_reboot))
    or_fail "Error rebooting Instance: " (act client (send_reboot linode_id boot_config))
    or_fail "Error waiting for Instance to finish rebooting: "
        (act client (wait_for_finished entity_id linode_reboot))
    or_fail "Timed-out waiting for Linode instance to boot: "
        (ask_instance client (wait_for_instance_status linode_id running))
    done tt
  reboot_running linode_id _ entity_id boot_config = done tt

  unfoldable pub reboot_instance : ℕ → ℕ → Run Ack
  reboot_instance entity_id boot_config = do
    i ←
        or_fail "Error fetching data about the current linode: "
          (ask_instance client (get_instance entity_id))
    reboot_running i.id i.status entity_id boot_config

  abbrev pub stop_to_offline : ℕ → Instance → Status → Run Instance
  stop_to_offline id i offline = done i
  stop_to_offline id i shutting_down = ask_instance client (wait_for_instance_status id offline)
  stop_to_offline id i _ = do
    act client (shutdown_instance id)
    ask_instance client (wait_for_instance_status id offline)

  -- `ensureInstanceOffline`
  unfoldable pub ensure_instance_offline : ℕ → Run Instance
  ensure_instance_offline instance_id = do
    i ← ask_instance client (get_instance instance_id)
    stop_to_offline instance_id i i.status
