-- ===== src/Instance/Semantics.antt =====
-- What the code relies on the API for, for one instance: a status read is the status, a wait that
-- succeeds has reached its status, and a boot or a shutdown that finished has taken place. Then how
-- a program that succeeds is followed from call to call.
use terraform_provider_linod.Prelude.{ℕ, ◌≡◌, ok, ◌∷◌}
use terraform_provider_linod.Instance.{
  Call, disk_create, disk_delete, disk_resize, send_reboot, resize_instance, migrate_instance,
  Status, offline, running, Instance, Action, linode_boot, linode_shutdown, get_instance,
  wait_for_finished, wait_for_instance_status, boot_instance, shutdown_instance, Client, History,
  Ack,
}

abbrev pub IsDiskAction : Action → Type 0
IsDiskAction disk_create = Unit
IsDiskAction disk_delete = Unit
IsDiskAction disk_resize = Unit
IsDiskAction _ = ⊥

-- The calls that read, or that act on disks, configs and volumes, leave the power state alone.
abbrev pub KeepsPower : Call → Type 0
KeepsPower (boot_instance n config) = ⊥
KeepsPower (send_reboot n config) = ⊥
KeepsPower (shutdown_instance n) = ⊥
KeepsPower (resize_instance n options) = ⊥
KeepsPower (migrate_instance n region m) = ⊥
KeepsPower (wait_for_instance_status n s) = ⊥
KeepsPower (wait_for_finished n action) = IsDiskAction action
KeepsPower _ = Unit

-- `status_of` tells the instance's status from the calls made so far.
pub record PowerSemantics (client : Client) (id : ℕ) (status_of : History → Status) : Type 0 where
  pub told :
      (h : History) (i : Instance)
      → client.answers_instance (get_instance id) h ≡ ok i
      → (i.status ≡ status_of (get_instance id ∷ h)) × (i.id ≡ id)
  pub waited :
      (target : Status) (h : History) (i : Instance)
      → client.answers_instance (wait_for_instance_status id target) h ≡ ok i
      → (i.status ≡ target)
        × (status_of (wait_for_instance_status id target ∷ h) ≡ target)
        × (i.id ≡ id)
  pub booted :
      (config : ℕ) (h : History) (a : Ack)
      → client.acts (wait_for_finished id linode_boot) (boot_instance id config ∷ h) ≡ ok a
      → status_of (wait_for_finished id linode_boot ∷ boot_instance id config ∷ h) ≡ running
  pub stopped :
      (h : History) (a : Ack)
      → client.acts (wait_for_finished id linode_shutdown) (shutdown_instance id ∷ h) ≡ ok a
      → status_of (wait_for_finished id linode_shutdown ∷ shutdown_instance id ∷ h) ≡ offline
  pub kept : (c : Call) (h : History) → KeepsPower c → status_of (c ∷ h) ≡ status_of h
