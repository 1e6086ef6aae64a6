-- ===== src/Instance/Update/Parts.antt =====
-- The calls of a change of type in an update of an instance, for any property of calls that holds of those
-- that need no reason.
use terraform_provider_linod.Prelude.Runs.{
  Every, Kept, Kept-explained, Kept-last, Kept-step, Kept-call, Kept-then, Kept-after, Sure,
  Sure-done, Sure-fail,
}
use terraform_provider_linod.Prelude.{
  ℕ, zero, suc, String, Bool, true, false, ◌≡◌, refl, Option, none, some, List, ◌∷◌, ltb, length,
  ◌≤◌, ◌!=◌, nat_eq, string_eq, arith,
}
use terraform_provider_linod.Instance.{
  shutdown_instance, LinodeType, Status, offline, running, booting, rebooting, shutting_down, other,
  Instance, Disk, Migration, cold, warm, Call, ResizeOptions, resize_instance, Client, History, Run,
}
use terraform_provider_linod.Instance.Power.{stop_to_offline, ensure_instance_offline}
use terraform_provider_linod.Instance.Resize.{
  TypeChange, spec_size_sum, fail_when, validate_implicit_disks, get_disk_size_sum,
  get_primary_implicit_disk, wait_for_instance_disk_size_change, changed_or, start_state,
  primary_disk, wait_for_size, change_instance_type, assert_disk_config_fits_instance_type,
  check_resize_disk, apply_instance_type_change, implicit_disks_invalid, send_resize,
}
use terraform_provider_linod.Instance.Disks.{DiskSpec}
use terraform_provider_linod.Instance.Update.Quiet.{IsQuiet}

module _ (client : Client) (P : Call → History → Type 0)
    (quiet : (c : Call) (h : History) → IsQuiet c → P c h) where
  calm : (c : Call) (h : History) → IsQuiet c → Every P h → Every P (c ∷ h)
  calm c h safe kept = (quiet c h safe, kept)

  fail_when-Kept :
      (b : Bool) (message : String) (h : History) → Every P h → Kept P (fail_when b message h)
  fail_when-Kept true message h kept = Kept-last _ _ _ kept
  fail_when-Kept false message h kept = Kept-last _ _ _ kept

  check-Kept :
      (b : Bool) (d : TypeChange) (i : Instance) (typ : LinodeType) (h : History)
      → Every P h
      → Kept P (check_resize_disk client b d i typ h)
  unfolding validate_implicit_disks get_disk_size_sum
  check-Kept false d i typ h kept = Kept-last _ _ _ kept
  check-Kept true d i typ h kept =
      Kept-then _ _ _ (fail_when-Kept d.explicit_disks _ h kept) (λ a h1 k1.
        Kept-then _ _ _
          (Kept-step _ _ _ _ _ (calm _ _ tt k1)
            (λ disks e k2. fail_when-Kept (implicit_disks_invalid disks) _ _ k2))
          (λ b h2 k2.
            Kept-then _ _ _
              (Kept-explained _ _ _
                (Kept-step _ _ _ _ _ (calm _ _ tt k2) (λ disks e k3. Kept-last _ _ _ k3)))
              (λ used h3 k3. fail_when-Kept (ltb typ.disk_capacity used) _ h3 k3)))

  stop-Kept :
      (n : ℕ) (seen : Instance) (s : Status) (h : History)
      → ((k : History) → P (shutdown_instance n) k)
      → Every P h
      → Kept P (stop_to_offline client n seen s h)
  stop-Kept n seen offline h may kept = Kept-last _ _ _ kept
  stop-Kept n seen shutting_down h may kept = Kept-last _ _ _ (calm _ _ tt kept)
  stop-Kept n seen running h may kept =
      Kept-call _ _ _ _ (may _, kept) (λ a e k. Kept-last _ _ _ (calm _ _ tt k))
  stop-Kept n seen booting h may kept =
      Kept-call _ _ _ _ (may _, kept) (λ a e k. Kept-last _ _ _ (calm _ _ tt k))
  stop-Kept n seen rebooting h may kept =
      Kept-call _ _ _ _ (may _, kept) (λ a e k. Kept-last _ _ _ (calm _ _ tt k))
  stop-Kept n seen (other s) h may kept =
      Kept-call _ _ _ _ (may _, kept) (λ a e k. Kept-last _ _ _ (calm _ _ tt k))

  start-Kept :
      (m : Migration) (n : ℕ) (h : History)
      → ((k : History) → m ≡ cold → P (shutdown_instance n) k)
      → Every P h
      → Kept P (start_state client m n h)
  unfolding ensure_instance_offline
  start-Kept cold n h may kept = Kept-explained _ _ _ (
      Kept-call _ _ _ _ (calm _ _ tt kept)
        (λ seen e k. stop-Kept n seen seen.status _ (λ l. may l refl) k))
  start-Kept warm n h may kept = Kept-explained _ _ _ (Kept-last _ _ _ (calm _ _ tt kept))

  primary-Kept : (b : Bool) (n : ℕ) (h : History) → Every P h → Kept P (primary_disk client b n h)
  unfolding get_primary_implicit_disk
  primary-Kept false n h kept = Kept-last _ _ _ kept
  primary-Kept true n h kept = Kept-step _ _ _ _ _ (calm _ _ tt kept) (λ disks e k.
      Kept-then _ _ _ (fail_when-Kept (ltb 2 (length disks)) _ _ k) (λ a h1 k1. Kept-last _ _ _ k1))

  changed-Kept :
      (b : Bool) (disk : Disk) (again : Run Disk) (h : History)
      → Every P h
      → Kept P (again h)
      → Kept P (changed_or client b disk again h)
  changed-Kept true disk again h kept next = Kept-last _ _ _ kept
  changed-Kept false disk again h kept next = next

  size_change-Kept :
      (ticks n disk old_size : ℕ) (h : History)
      → Every P h
      → Kept P (wait_for_instance_disk_size_change client n disk old_size ticks h)
  unfolding wait_for_instance_disk_size_change
  size_change-Kept zero n disk old_size h kept = Kept-last _ _ _ kept
  size_change-Kept (suc ticks) n disk old_size h kept =
      Kept-call _ _ _ _ (calm _ _ tt kept) (λ seen e k.
        changed-Kept (seen.size != old_size) seen _ _ k
          (size_change-Kept ticks n disk old_size _ k))

  wait_for_size-Kept :
      (ticks : ℕ) (seen : Instance) (primary : Option Disk) (h : History)
      → Every P h
      → Kept P (wait_for_size client ticks seen primary h)
  wait_for_size-Kept ticks seen none h kept = Kept-last _ _ _ kept
  wait_for_size-Kept ticks seen (some disk) h kept =
      Kept-then _ _ _
        (Kept-explained _ _ _ (size_change-Kept ticks seen.id disk.id disk.size h kept))
        (λ a h1 k1. Kept-last _ _ _ k1)

  pub assert-Kept :
      (specs : List DiskSpec) (typ : LinodeType) (h : History)
      → Every P h
      → Kept P (assert_disk_config_fits_instance_type client specs typ h)
  unfolding assert_disk_config_fits_instance_type
  assert-Kept specs typ h kept =
      fail_when-Kept (ltb typ.disk_capacity (spec_size_sum specs)) _ h kept

  module _ (d : TypeChange) (i : Instance) (typ : LinodeType) where
    -- The reason for a change of type: the new disks fit on the new type.
    abbrev pub MayResizeType : Type 0
    MayResizeType =
        (n : ℕ) (o : ResizeOptions) (h : History)
        → o.target_type ≡ typ.id
        → spec_size_sum d.new_disks ≤ typ.disk_capacity
        → P (resize_instance n o) h

    send-Kept :
        (may : MayResizeType) (ticks : ℕ) (o : ResizeOptions) (seen : Instance)
        (primary : Option Disk) (h : History)
        → o.target_type ≡ typ.id
        → spec_size_sum d.new_disks ≤ typ.disk_capacity
        → Every P h
        → Kept P (send_resize client ticks o seen primary h)
    send-Kept may ticks o seen primary h target fits kept =
        Kept-step _ _ _ _ _ (calm _ _ tt kept) (λ a e k.
          Kept-step _ _ _ _ _ (may _ o _ target fits, k)
            (λ b e1 k1. Kept-step _ _ _ _ _ (calm _ _ tt k1) (λ c e2 k2.
              Kept-step _ _ _ _ _ (calm _ _ tt k2)
                (λ resized e3 k3. wait_for_size-Kept ticks resized primary _ k3))))

    fits_if :
        (short : Bool) (h : History)
        → ltb typ.disk_capacity (spec_size_sum d.new_disks) ≡ short
        → Sure
            (λ a k. spec_size_sum d.new_disks ≤ typ.disk_capacity)
            (fail_when short "linode type has insufficient disk capacity for the config" h)
    fits_if true h e = Sure-fail _ _ _
    fits_if false h e = Sure-done _ _ _ (ground (arith, e))

    fits_within :
        (h : History)
        → Sure
            (λ a k. spec_size_sum d.new_disks ≤ typ.disk_capacity)
            (assert_disk_config_fits_instance_type client d.new_disks typ h)
    unfolding assert_disk_config_fits_instance_type
    fits_within h = fits_if (ltb typ.disk_capacity (spec_size_sum d.new_disks)) h refl

    pub type_change-Kept :
        (may : MayResizeType) (ticks : ℕ) (h : History)
        → ((k : History) → d.migration_type ≡ cold → P (shutdown_instance i.id) k)
        → Every P h
        → Kept P (apply_instance_type_change client ticks d i typ h)
    unfolding apply_instance_type_change change_instance_type
    type_change-Kept may ticks h may_stop kept =
        Kept-then _ _ _ (check-Kept d.resize_disk d i typ h kept) (λ a h1 k1.
          Kept-after _ _ _ _ (assert-Kept d.new_disks typ h1 k1) (fits_within h1) (λ b h2 k2 fits.
            Kept-then _ _ _ (start-Kept d.migration_type i.id h2 may_stop k2) (λ seen h3 k3.
              Kept-then _ _ _ (primary-Kept d.resize_disk i.id h3 k3)
                (λ primary h4 k4. send-Kept may ticks _ seen primary h4 refl fits k4))))
