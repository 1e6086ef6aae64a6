-- ===== src/Instance/Update/Quiet.antt =====
-- The calls of the functions that an update of an instance uses, for any property of calls that holds of
-- those that need no reason.
use terraform_provider_linod.Prelude.Runs.{
  Every, Kept, Kept-explained, Kept-last, Kept-step, Kept-then,
}
use terraform_provider_linod.Prelude.{
  ℕ, Bool, true, false, Option, none, some, ◌∷◌, ◌≡◌, refl, nat_eq, string_eq, if◌then◌else◌,
}
use terraform_provider_linod.Instance.{
  Status, offline, running, booting, rebooting, shutting_down, other, Call, get_instance,
  list_instance_disks, get_instance_disk, new_event_poller, wait_for_finished,
  wait_for_instance_status, wait_for_instance_disk_ready, boot_instance, shutdown_instance,
  get_volume, detach_volume, wait_for_volume_detached, list_instance_configs,
  create_instance_config, update_instance_config, delete_instance_config, get_type,
  get_instance_config, get_instance_ip_addresses, Client, History, Run,
}
use terraform_provider_linod.Instance.Power.{
  boot_instance_sync, shut_down_instance_sync, wait_to_reach, settle,
  wait_for_instance_non_transient_status, boot_unless_running, stop_unless_offline,
  handle_booted_update, stop_safely, safe_shutdown_instance,
  shutdown_instance_for_vpc_interface_update,
}

-- The reads, the waits, and the calls on configs and volumes.
abbrev pub IsQuiet : Call → Type 0
IsQuiet (get_instance n) = Unit
IsQuiet (list_instance_disks n) = Unit
IsQuiet (get_instance_disk n d) = Unit
IsQuiet (new_event_poller n action) = Unit
IsQuiet (wait_for_finished n action) = Unit
IsQuiet (wait_for_instance_status n status) = Unit
IsQuiet (wait_for_instance_disk_ready n d) = Unit
IsQuiet (get_volume v) = Unit
IsQuiet (detach_volume v) = Unit
IsQuiet (wait_for_volume_detached v) = Unit
IsQuiet (list_instance_configs n) = Unit
IsQuiet (create_instance_config n options) = Unit
IsQuiet (update_instance_config n c options) = Unit
IsQuiet (delete_instance_config n c) = Unit
IsQuiet (get_type t) = Unit
IsQuiet (get_instance_config n c) = Unit
IsQuiet (get_instance_ip_addresses n) = Unit
IsQuiet _ = ⊥

module _ (client : Client) (P : Call → History → Type 0)
    (quiet : (c : Call) (h : History) → IsQuiet c → P c h) where
  calm : (c : Call) (h : History) → IsQuiet c → Every P h → Every P (c ∷ h)
  calm c h safe kept = (quiet c h safe, kept)

  pub choose-Kept :
      {A : Type 0} (b : Bool) (m n : Run A) (h : History)
      → Kept P (m h)
      → Kept P (n h)
      → Kept P ((if b then m else n) h)
  choose-Kept true m n h first second = first
  choose-Kept false m n h first second = second

  wait-Kept :
      (n : ℕ) (target : Status) (h : History) → Every P h → Kept P (wait_to_reach client n target h)
  wait-Kept n target h kept = Kept-step _ _ _ _ _ (calm _ _ tt kept) (λ i e k. Kept-last _ _ _ k)

  settle-Kept : (n : ℕ) (s : Status) (h : History) → Every P h → Kept P (settle client n s h)
  settle-Kept n booting h kept = wait-Kept n running h kept
  settle-Kept n rebooting h kept = wait-Kept n running h kept
  settle-Kept n shutting_down h kept = wait-Kept n offline h kept
  settle-Kept n running h kept = Kept-last _ _ _ kept
  settle-Kept n offline h kept = Kept-last _ _ _ kept
  settle-Kept n (other s) h kept = Kept-last _ _ _ kept

  non_transient-Kept :
      (n : ℕ) (h : History) → Every P h → Kept P (wait_for_instance_non_transient_status client n h)
  unfolding wait_for_instance_non_transient_status
  non_transient-Kept n h kept =
      Kept-step _ _ _ _ _ (calm _ _ tt kept) (λ i e k. settle-Kept i.id i.status _ k)

  stop-Kept :
      (n : ℕ) (h : History)
      → ((k : History) → P (shutdown_instance n) k)
      → Every P h
      → Kept P (shut_down_instance_sync client n h)
  unfolding shut_down_instance_sync
  stop-Kept n h may kept = Kept-step _ _ _ _ _ (calm _ _ tt kept) (λ a e k.
      Kept-step _ _ _ _ _ (may _, k)
        (λ b f l. Kept-explained _ _ _ (Kept-last _ _ _ (calm _ _ tt l))))

  pub boot-Kept :
      (n config : ℕ) (h : History)
      → ((k : History) → P (boot_instance n config) k)
      → Every P h
      → Kept P (boot_instance_sync client n config h)
  unfolding boot_instance_sync
  boot-Kept n config h may kept = Kept-step _ _ _ _ _ (calm _ _ tt kept) (λ a e k.
      Kept-step _ _ _ _ _ (may _, k)
        (λ b f l. Kept-explained _ _ _ (Kept-last _ _ _ (calm _ _ tt l))))

  boot_unless-Kept :
      (n config : ℕ) (s : Status) (h : History)
      → ((k : History) → P (boot_instance n config) k)
      → Every P h
      → Kept P (boot_unless_running client n config s true h)
  boot_unless-Kept n config running h may kept = Kept-last _ _ _ kept
  boot_unless-Kept n config offline h may kept = boot-Kept n config h may kept
  boot_unless-Kept n config booting h may kept = boot-Kept n config h may kept
  boot_unless-Kept n config rebooting h may kept = boot-Kept n config h may kept
  boot_unless-Kept n config shutting_down h may kept = boot-Kept n config h may kept
  boot_unless-Kept n config (other s) h may kept = boot-Kept n config h may kept

  not_booted-Kept :
      (n config : ℕ) (s : Status) (h : History)
      → Every P h
      → Kept P (boot_unless_running client n config s false h)
  not_booted-Kept n config running h kept = Kept-last _ _ _ kept
  not_booted-Kept n config offline h kept = Kept-last _ _ _ kept
  not_booted-Kept n config booting h kept = Kept-last _ _ _ kept
  not_booted-Kept n config rebooting h kept = Kept-last _ _ _ kept
  not_booted-Kept n config shutting_down h kept = Kept-last _ _ _ kept
  not_booted-Kept n config (other s) h kept = Kept-last _ _ _ kept

  stop_unless-Kept :
      (n : ℕ) (s : Status) (wanted : Bool) (h : History)
      → ((k : History) → wanted ≡ false → P (shutdown_instance n) k)
      → Every P h
      → Kept P (stop_unless_offline client n s wanted h)
  stop_unless-Kept n offline wanted h may kept = Kept-last _ _ _ kept
  stop_unless-Kept n running true h may kept = Kept-last _ _ _ kept
  stop_unless-Kept n booting true h may kept = Kept-last _ _ _ kept
  stop_unless-Kept n rebooting true h may kept = Kept-last _ _ _ kept
  stop_unless-Kept n shutting_down true h may kept = Kept-last _ _ _ kept
  stop_unless-Kept n (other s) true h may kept = Kept-last _ _ _ kept
  stop_unless-Kept n running false h may kept = stop-Kept n h (λ k. may k refl) kept
  stop_unless-Kept n booting false h may kept = stop-Kept n h (λ k. may k refl) kept
  stop_unless-Kept n rebooting false h may kept = stop-Kept n h (λ k. may k refl) kept
  stop_unless-Kept n shutting_down false h may kept = stop-Kept n h (λ k. may k refl) kept
  stop_unless-Kept n (other s) false h may kept = stop-Kept n h (λ k. may k refl) kept

  -- A boot and a shutdown need a reason, which `booted` is.
  pub handle_booted-Kept :
      (booted : Option Bool) (n config : ℕ) (h : History)
      → ((k : History) → booted ≡ some true → P (boot_instance n config) k)
      → ((k : History) → booted ≡ some false → P (shutdown_instance n) k)
      → Every P h
      → Kept P (handle_booted_update client booted n config h)
  unfolding handle_booted_update
  handle_booted-Kept none n config h may may_stop kept = Kept-last _ _ _ kept
  handle_booted-Kept (some true) n config h may may_stop kept =
      Kept-then _ _ _ (non_transient-Kept n h kept) (λ s h1 k1.
        Kept-then _ _ _ (boot_unless-Kept n config s h1 (λ k. may k refl) k1)
          (λ a h2 k2. stop_unless-Kept n s true h2 (λ k e. cc) k2))
  handle_booted-Kept (some false) n config h may may_stop kept =
      Kept-then _ _ _ (non_transient-Kept n h kept) (λ s h1 k1.
        Kept-then _ _ _ (not_booted-Kept n config s h1 k1)
          (λ a h2 k2. stop_unless-Kept n s false h2 (λ k e. may_stop k refl) k2))

  stop_safely-Kept :
      (n : ℕ) (s : Status) (h : History)
      → ((k : History) → P (shutdown_instance n) k)
      → Every P h
      → Kept P (stop_safely client n s h)
  stop_safely-Kept n offline h may kept = Kept-last _ _ _ kept
  stop_safely-Kept n running h may kept = Kept-explained _ _ _ (stop-Kept n h may kept)
  stop_safely-Kept n booting h may kept = Kept-explained _ _ _ (stop-Kept n h may kept)
  stop_safely-Kept n rebooting h may kept = Kept-explained _ _ _ (stop-Kept n h may kept)
  stop_safely-Kept n shutting_down h may kept = Kept-explained _ _ _ (stop-Kept n h may kept)
  stop_safely-Kept n (other s) h may kept = Kept-explained _ _ _ (stop-Kept n h may kept)

  pub vpc_shutdown-Kept :
      (skip : Bool) (n : ℕ) (h : History)
      → ((k : History) → skip ≡ false → P (shutdown_instance n) k)
      → Every P h
      → Kept P (shutdown_instance_for_vpc_interface_update client skip n h)
  unfolding shutdown_instance_for_vpc_interface_update safe_shutdown_instance
  vpc_shutdown-Kept true n h may kept = Kept-last _ _ _ kept
  vpc_shutdown-Kept false n h may kept =
      Kept-then _ _ _ (Kept-explained _ _ _ (non_transient-Kept n h kept))
        (λ s h1 k1. stop_safely-Kept n s h1 (λ k. may k refl) k1)
