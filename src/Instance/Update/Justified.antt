-- ===== src/Instance/Update/Justified.antt =====
-- What an update of an instance may send.
use terraform_provider_linod.Prelude.Runs.{
  Every, Kept, Kept-explained, Kept-last, Kept-call, Sure, Sure-call, Sure-done,
}
use terraform_provider_linod.Prelude.{
  Bool, Bool-cases, inl, inr, String, Option, none, if◌then◌else◌, true, false, ◌≡◌, ◌≢◌, ◌⊎◌, refl,
  ◌<◌, ◌≤◌, some, ◌∷◌, ok, nat_eq, string_eq,
}
use terraform_provider_linod.Instance.{
  cold, InstanceUpdateOptions, LinodeType, Instance, Call, get_type, list_instance_disks,
  get_instance_disk, new_event_poller, wait_for_finished, wait_for_instance_status,
  wait_for_instance_disk_ready, shutdown_instance, boot_instance, send_reboot, resize_instance,
  create_instance_disk, delete_instance_disk, resize_instance_disk, resize_instance_disk_below,
  migrate_instance, unassign_placement_group, assign_placement_group, update_instance,
  enable_instance_backups, cancel_instance_backups, add_instance_ip_address, share_ip_addresses,
  History, Run, Ack,
}
use terraform_provider_linod.Instance.Resize.{spec_size_sum}
use terraform_provider_linod.Instance.Disks.Calls.{IsHarmless}
use terraform_provider_linod.Instance.Update.{
  if_changed, simple_options, ResourceData, Provider, is_simple_update, type_change,
}
use terraform_provider_linod.Instance.Swap.{Change}
use terraform_provider_linod.Instance.Update.Handler.{
  run_if, refresh_if, set_backups, add_private_ip, get_instance_type_change, change_type,
}
use terraform_provider_linod.Instance.Update.Quiet.{IsQuiet}
use terraform_provider_linod.Instance.Update.Parts.{type_change-Kept}

-- The type that the API gives for the new type of the data.
abbrev pub IsNewType : Provider → ResourceData → LinodeType → Type 0
IsNewType p d typ = (k : History) × (p.client.answers_type (get_type d.type.new) k ≡ ok typ)

abbrev pub IsOldType : Provider → ResourceData → LinodeType → Type 0
IsOldType p d typ = (k : History) × (p.client.answers_type (get_type d.type.old) k ≡ ok typ)

-- The type changes, to one with more disk space or to another of no more.
abbrev pub ChangesType : LinodeType → LinodeType → Type 0
ChangesType old new = (old.disk_capacity < new.disk_capacity) ⊎ (old.id ≢ new.id)

-- The type is the new one of the data, and differs from the old one.
abbrev pub IsNextType : Provider → ResourceData → LinodeType → Type 0
IsNextType p d typ =
    IsNewType p d typ × ((old : LinodeType) × IsOldType p d old × ChangesType old typ)

-- Why an instance is shut down.
pub data StopReason (p : Provider) (d : ResourceData) : Type 0 where
  turned_off : d.booted ≡ some false → StopReason p d
  explicit_disks : d.image_is_null ≡ true → StopReason p d
  swap_changes : d.swap_size.has_change ≡ true → StopReason p d
  interfaces_change :
      d.interface.has_change ≡ true → p.skip_implicit_reboots ≡ false → StopReason p d
  cold_type_change :
      (typ : LinodeType) → IsNextType p d typ → d.migration_type ≡ cold → StopReason p d

-- A field that is sent where it changes, with its new value, and left alone where it does not.
abbrev pub Tells : {A : Type 0} → Change A → Option A → Type 0
Tells change sent =
    ((change.has_change ≡ true) × (sent ≡ some change.new))
    ⊎ ((change.has_change ≡ false) × (sent ≡ none))

-- The same for a field that the empty string leaves alone.
abbrev pub TellsText : Change String → String → Type 0
TellsText change sent =
    ((change.has_change ≡ true) × (sent ≡ change.new)) ⊎ ((change.has_change ≡ false) × (sent ≡ ""))

-- The options of an update tell what changes, which is something.
abbrev pub TellsUpdate : ResourceData → InstanceUpdateOptions → Type 0
TellsUpdate d o =
    (is_simple_update d ≡ true)
    × TellsText d.label o.label
    × Tells d.group o.group
    × Tells d.maintenance_policy o.maintenance_policy
    × Tells d.tags o.tags
    × Tells d.watchdog_enabled o.watchdog_enabled
    × Tells d.alerts o.alerts

if_changed-Tells : {A : Type 0} (change : Change A) → Tells change (if_changed change change.new)
if_changed-Tells change = elim (Bool-cases change.has_change) [
  | inl e ↦ inl (e, rw e refl)
  | inr e ↦ inr (e, rw e refl)
]

label-Tells :
    (change : Change String) → TellsText change (if change.has_change then change.new else "")
label-Tells change = elim (Bool-cases change.has_change) [
  | inl e ↦ inl (e, rw e refl)
  | inr e ↦ inr (e, rw e refl)
]

pub simple_options-Tells :
    (d : ResourceData) → is_simple_update d ≡ true → TellsUpdate d (simple_options d)
simple_options-Tells d e = (
  e,
  label-Tells d.label,
  if_changed-Tells d.group,
  if_changed-Tells d.maintenance_policy,
  if_changed-Tells d.tags,
  if_changed-Tells d.watchdog_enabled,
  if_changed-Tells d.alerts,
)

-- Each call that changes something is judged by the change of the configuration that asks for it. The
-- calls on configs and volumes are not judged.
abbrev pub Justified : Provider → ResourceData → Call → History → Type 0
Justified p d (send_reboot n config) h =
    (p.skip_implicit_reboots ≡ false) × (d.booted ≢ some false) × (0 < config)
Justified p d (boot_instance n config) h = d.booted ≢ some false
Justified p d (resize_instance n o) h =
    (typ : LinodeType) × IsNextType p d typ
    × (o.target_type ≡ typ.id)
    × (spec_size_sum d.disk.new ≤ typ.disk_capacity)
Justified p d (shutdown_instance n) h = StopReason p d
Justified p d (create_instance_disk n o) h = d.image_is_null ≡ true
Justified p d (delete_instance_disk n disk) h = d.image_is_null ≡ true
Justified p d (resize_instance_disk n disk s) h =
    (d.image_is_null ≡ true) ⊎ (d.swap_size.has_change ≡ true)
Justified p d (resize_instance_disk_below n disk s) h = d.swap_size.has_change ≡ true
Justified p d (migrate_instance n region m) h =
    (d.region.has_change ≡ true) × (region ≡ d.region.new) × (m ≡ d.migration_type)
Justified p d (unassign_placement_group g n) h =
    (d.placement_group_id.has_change ≡ true) × (g ≡ d.placement_group_id.old)
Justified p d (assign_placement_group g n compliant_only) h =
    (d.placement_group_id.has_change ≡ true)
    × (g ≡ d.placement_group_id.new)
    × (compliant_only ≡ d.compliant_only)
Justified p d (update_instance n o) h = TellsUpdate d o
Justified p d (enable_instance_backups n) h =
    (d.backups_enabled.has_change ≡ true) × (d.backups_enabled.new ≡ true)
Justified p d (cancel_instance_backups n) h =
    (d.backups_enabled.has_change ≡ true) × (d.backups_enabled.new ≡ false)
Justified p d (add_instance_ip_address n is_public) h =
    (d.private_ip.has_change ≡ true) × (d.private_ip.new ≡ true) × (is_public ≡ false)
Justified p d (share_ip_addresses n ips) h =
    (d.shared_ipv4.has_change ≡ true) × (ips ≡ d.shared_ipv4.new)
Justified p d _ h = Unit

module _ (p : Provider) (d : ResourceData) where
  abbrev pub P : Call → History → Type 0
  P c h = Justified p d c h

  pub quiet : (c : Call) (h : History) → IsQuiet c → P c h
  quiet (send_reboot n config) h safe = absurd safe
  quiet (boot_instance n config) h safe = absurd safe
  quiet (shutdown_instance n) h safe = absurd safe
  quiet (resize_instance n o) h safe = absurd safe
  quiet (create_instance_disk n o) h safe = absurd safe
  quiet (delete_instance_disk n disk) h safe = absurd safe
  quiet (resize_instance_disk n disk s) h safe = absurd safe
  quiet (resize_instance_disk_below n disk s) h safe = absurd safe
  quiet (migrate_instance n region m) h safe = absurd safe
  quiet (unassign_placement_group g n) h safe = absurd safe
  quiet (assign_placement_group g n compliant_only) h safe = absurd safe
  quiet (update_instance n o) h safe = absurd safe
  quiet (enable_instance_backups n) h safe = absurd safe
  quiet (cancel_instance_backups n) h safe = absurd safe
  quiet (add_instance_ip_address n is_public) h safe = absurd safe
  quiet (share_ip_addresses n ips) h safe = absurd safe
  quiet _ h safe = tt

  -- The shutdown before a change of disks needs a reason.
  pub harmless : StopReason p d → (c : Call) (h : History) → IsHarmless c → P c h
  harmless reason (list_instance_disks n) h safe = tt
  harmless reason (get_instance_disk n disk) h safe = tt
  harmless reason (new_event_poller n action) h safe = tt
  harmless reason (wait_for_finished n action) h safe = tt
  harmless reason (wait_for_instance_status n status) h safe = tt
  harmless reason (wait_for_instance_disk_ready n disk) h safe = tt
  harmless reason (shutdown_instance n) h safe = reason
  harmless reason _ h safe = absurd safe

  pub calm : (c : Call) (h : History) → IsQuiet c → Every P h → Every P (c ∷ h)
  calm c h safe kept = (quiet c h safe, kept)

  pub run_if-Kept :
      (b : Bool) (run : Run Ack) (h : History)
      → Every P h
      → (b ≡ true → Kept P (run h))
      → Kept P (run_if p b run h)
  run_if-Kept true run h kept next = next refl
  run_if-Kept false run h kept next = Kept-last _ _ _ kept

  pub refresh_if-Kept :
      (b : Bool) (i : Instance) (run : Run Instance) (h : History)
      → Every P h
      → (b ≡ true → Kept P (run h))
      → Kept P (refresh_if p b i run h)
  refresh_if-Kept true i run h kept next = next refl
  refresh_if-Kept false i run h kept next = Kept-last _ _ _ kept

  pub backups-Kept :
      (enabled : Bool) (i : Instance) (h : History)
      → d.backups_enabled.has_change ≡ true
      → d.backups_enabled.new ≡ enabled
      → Every P h
      → Kept P (set_backups p enabled i h)
  backups-Kept true i h e f kept = Kept-last _ _ _ ((e, f), kept)
  backups-Kept false i h e f kept = Kept-last _ _ _ ((e, f), kept)

  pub private_ip-Kept :
      (wanted : Bool) (i : Instance) (h : History)
      → d.private_ip.has_change ≡ true
      → d.private_ip.new ≡ wanted
      → Every P h
      → Kept P (add_private_ip p wanted i h)
  private_ip-Kept true i h e f kept = Kept-explained _ _ _ (Kept-last _ _ _ ((e, f, refl), kept))
  private_ip-Kept false i h e f kept = Kept-last _ _ _ kept

  -- The types that are compared are those of the API.
  pub types-Kept : (h : History) → Every P h → Kept P (get_instance_type_change p d h)
  unfolding get_instance_type_change
  types-Kept h kept =
      Kept-call _ _ _ _ (tt, kept)
        (λ old e k. Kept-call _ _ _ _ (tt, k) (λ new f k1. Kept-last _ _ _ k1))

  pub types-Sure :
      (h : History)
      → Sure
          (λ specs k. IsOldType p d specs.0 × IsNewType p d specs.1)
          (get_instance_type_change p d h)
  unfolding get_instance_type_change
  types-Sure h =
      Sure-call _ _ _ _ (λ old e. Sure-call _ _ _ _ (λ new f. Sure-done _ _ _ ((_, e), (_, f))))

  pub type-Kept :
      (typ : LinodeType) (i : Instance) (h : History)
      → IsNextType p d typ
      → Every P h
      → Kept P (change_type p d typ i h)
  type-Kept typ i h next kept = Kept-explained _ _ _ (
      type_change-Kept p.client P quiet (type_change d) i typ
        (λ n o k target fits. (typ, next, target, fits)) p.ticks h
        (λ k is_cold. cold_type_change typ next is_cold) kept)
