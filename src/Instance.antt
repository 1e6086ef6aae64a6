-- ===== src/Instance.antt =====
-- linode/instance/helpers.go and linode/helper/instance.go: the power, the disks and the type of an
-- instance. This file has the data, the calls of the API, and the programs that make them; the
-- children follow the functions.
mod Structs
pub mod Power
pub mod Semantics
pub mod Disks
pub mod Resize
pub mod Operation
pub mod Configs
pub mod Placement
pub mod Swap
pub mod Update
mod Tests
pub use Structs.*
use terraform_provider_linod.Prelude.Runs.{Runs}
use terraform_provider_linod.Prelude.{
  ℕ, String, Bool, true, false, ◌&&◌, ◌≡◌, ap, refl, ◌↔◌, Option, none, some, List, [], ◌∷◌, Result,
  ok, err, arith,
}

-- A call of the client, with its arguments but the deadlines; a poller waits for the action that it
-- was made for.
pub data Call : Type 0 where
  get_instance : ℕ → Call
  list_instance_disks : ℕ → Call
  get_instance_disk : ℕ → ℕ → Call
  new_event_poller : ℕ → Action → Call
  wait_for_finished : ℕ → Action → Call
  wait_for_instance_status : ℕ → Status → Call
  wait_for_instance_disk_ready : ℕ → ℕ → Call
  boot_instance : ℕ → ℕ → Call
  send_reboot : ℕ → ℕ → Call
  shutdown_instance : ℕ → Call
  resize_instance : ℕ → ResizeOptions → Call
  create_instance_disk : ℕ → DiskCreateOptions → Call
  delete_instance_disk : ℕ → ℕ → Call
  resize_instance_disk : ℕ → ℕ → ℕ → Call
  new_event_poller_with_secondary : ℕ → ℕ → Action → Call
  migrate_instance : ℕ → String → Migration → Call
  get_volume : ℕ → Call
  detach_volume : ℕ → Call
  wait_for_volume_detached : ℕ → Call
  list_instance_configs : ℕ → Call
  create_instance_config : ℕ → ConfigOptions → Call
  update_instance_config : ℕ → ℕ → ConfigOptions → Call
  delete_instance_config : ℕ → ℕ → Call
  unassign_placement_group : ℕ → ℕ → Call
  assign_placement_group : ℕ → ℕ → Option Bool → Call
  -- A resize to a negative size, told by its magnitude.
  resize_instance_disk_below : ℕ → ℕ → ℕ → Call
  get_type : String → Call
  update_instance : ℕ → InstanceUpdateOptions → Call
  enable_instance_backups : ℕ → Call
  cancel_instance_backups : ℕ → Call
  add_instance_ip_address : ℕ → Bool → Call
  get_instance_config : ℕ → ℕ → Call
  share_ip_addresses : ℕ → List String → Call
  get_instance_ip_addresses : ℕ → Call

-- The calls made so far, the latest first.
abbrev pub History : Type 0
History = List Call

-- A reply that only says that the call went through.
abbrev pub Ack : Type 0
Ack = Unit

-- The client answers a call by what was called before it, or fails with a message.
pub record Client : Type 0 where
  pub acts : Call → History → Result String Ack
  pub answers_instance : Call → History → Result String Instance
  pub answers_disk : Call → History → Result String Disk
  pub answers_disks : Call → History → Result String (List Disk)
  pub answers_volume : Call → History → Result String Volume
  pub answers_config : Call → History → Result String InstanceConfig
  pub answers_configs : Call → History → Result String (List InstanceConfig)
  pub answers_type : Call → History → Result String LinodeType

-- A function that calls the API: its result and the history after it.
abbrev pub Run : Type 0 → Type 0
Run = Runs Call

module _ (client : Client) where
  abbrev pub act : Call → Run Ack
  act c h = (client.acts c h, c ∷ h)

  abbrev pub ask_instance : Call → Run Instance
  ask_instance c h = (client.answers_instance c h, c ∷ h)

  abbrev pub ask_disk : Call → Run Disk
  ask_disk c h = (client.answers_disk c h, c ∷ h)

  abbrev pub ask_disks : Call → Run (List Disk)
  ask_disks c h = (client.answers_disks c h, c ∷ h)

  abbrev pub ask_volume : Call → Run Volume
  ask_volume c h = (client.answers_volume c h, c ∷ h)

  abbrev pub ask_config : Call → Run InstanceConfig
  ask_config c h = (client.answers_config c h, c ∷ h)

  abbrev pub ask_configs : Call → Run (List InstanceConfig)
  ask_configs c h = (client.answers_configs c h, c ∷ h)

  abbrev pub ask_type : Call → Run LinodeType
  ask_type c h = (client.answers_type c h, c ∷ h)
