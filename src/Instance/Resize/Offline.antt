-- ===== src/Instance/Resize/Offline.antt =====
-- When the type of an instance is changed.
use mathlib.Core.Path.{subst}
use terraform_provider_linod.Prelude.Runs.{
  Sure, Sure-step, Sure-last, Sure-done, Sure-fail, Sure-map, Sure-explained, Sure-after, Every,
  Kept, Kept-holds, Kept-step, Kept-call, Kept-last, Kept-then, Kept-after, Kept-explained,
}
use terraform_provider_linod.Prelude.{
  ℕ, zero, suc, String, Bool, true, false, ◌≡◌, refl, sym, ◌∙◌, ◌≤◌, ltb, ◌!=◌, nat_eq, Option,
  none, some, [], ◌∷◌, arith, length,
}
use terraform_provider_linod.Instance.{
  LinodeType, Status, offline, running, booting, rebooting, shutting_down, other, Instance, Disk,
  Migration, cold, warm, linode_resize, Call, resize_instance, new_event_poller, Client, History,
  Run,
}
use terraform_provider_linod.Instance.Semantics.{PowerSemantics}
use terraform_provider_linod.Instance.Power.{ensure_instance_offline, stop_to_offline}
use terraform_provider_linod.Instance.Power.Reached.{ensure_offline_stops}
use terraform_provider_linod.Instance.Resize.{
  TypeChange, spec_size_sum, fail_when, validate_implicit_disks, get_disk_size_sum,
  get_primary_implicit_disk, wait_for_instance_disk_size_change, changed_or, start_state,
  primary_disk, wait_for_size, change_instance_type, assert_disk_config_fits_instance_type,
  check_resize_disk, apply_instance_type_change, implicit_disks_invalid,
}

abbrev pub OfflineIf : Migration → Status → Type 0
OfflineIf cold s = s ≡ offline
OfflineIf warm s = Unit

-- A resize of the instance is judged: it is to the new type, on which the new disks fit, and a cold
-- migration finds the instance offline.
abbrev pub TypeAllowed :
    Instance → LinodeType → TypeChange → (History → Status) → Call → History → Type 0
TypeAllowed i typ d status_of (resize_instance n o) h =
    (n ≡ i.id)
    × (o.target_type ≡ typ.id)
    × (spec_size_sum d.new_disks ≤ typ.disk_capacity)
    × OfflineIf d.migration_type (status_of h)
TypeAllowed i typ d status_of _ h = Unit

fits_type :
    (d : TypeChange) (typ : LinodeType)
    → ltb typ.disk_capacity (spec_size_sum d.new_disks) ≡ false
    → spec_size_sum d.new_disks ≤ typ.disk_capacity
fits_type d typ e = ground arith

module _ (client : Client) (i : Instance) (typ : LinodeType) (d : TypeChange)
    (status_of : History → Status) (semantics : PowerSemantics client i.id status_of) where
  abbrev Allowed : Call → History → Type 0
  Allowed c h = TypeAllowed i typ d status_of c h

  fail_when-Kept :
      (b : Bool) (message : String) (h : History)
      → Every Allowed h
      → Kept Allowed (fail_when b message h)
  fail_when-Kept true message h kept = Kept-last _ _ _ kept
  fail_when-Kept false message h kept = Kept-last _ _ _ kept

  fail_when-Sure :
      (b : Bool) (message : String) (h : History)
      → Sure (λ a h'. (b ≡ false) × (h' ≡ h)) (fail_when b message h)
  fail_when-Sure true message h = Sure-fail _ _ _
  fail_when-Sure false message h = Sure-done _ _ _ (refl, refl)

  check-Kept :
      (b : Bool) (h : History)
      → Every Allowed h
      → Kept Allowed (check_resize_disk client b d i typ h)
  unfolding validate_implicit_disks get_disk_size_sum
  check-Kept false h kept = Kept-last _ _ _ kept
  check-Kept true h kept = Kept-then _ _ _ (fail_when-Kept d.explicit_disks _ h kept) (λ a h1 k1.
      Kept-then _ _ _
        (Kept-step _ _ _ _ _ (tt, k1)
          (λ disks e k2. fail_when-Kept (implicit_disks_invalid disks) _ _ k2))
        (λ b h2 k2.
          Kept-then _ _ _
            (Kept-explained _ _ _ (Kept-step _ _ _ _ _ (tt, k2) (λ disks e k3. Kept-last _ _ _ k3)))
            (λ used h3 k3. fail_when-Kept (ltb typ.disk_capacity used) _ h3 k3)))

  stop-Kept :
      (seen : Instance) (s : Status) (h : History)
      → Every Allowed h
      → Kept Allowed (stop_to_offline client i.id seen s h)
  stop-Kept seen offline h kept = Kept-last _ _ _ kept
  stop-Kept seen shutting_down h kept = Kept-last _ _ _ (tt, kept)
  stop-Kept seen running h kept = Kept-call _ _ _ _ (tt, kept) (λ a e k. Kept-last _ _ _ (tt, k))
  stop-Kept seen booting h kept = Kept-call _ _ _ _ (tt, kept) (λ a e k. Kept-last _ _ _ (tt, k))
  stop-Kept seen rebooting h kept = Kept-call _ _ _ _ (tt, kept) (λ a e k. Kept-last _ _ _ (tt, k))
  stop-Kept seen (other s) h kept = Kept-call _ _ _ _ (tt, kept) (λ a e k. Kept-last _ _ _ (tt, k))

  start-Kept :
      (m : Migration) (h : History) → Every Allowed h → Kept Allowed (start_state client m i.id h)
  unfolding ensure_instance_offline
  start-Kept cold h kept =
      Kept-explained _ _ _
        (Kept-call _ _ _ _ (tt, kept) (λ seen e k. stop-Kept seen seen.status _ k))
  start-Kept warm h kept = Kept-explained _ _ _ (Kept-last _ _ _ (tt, kept))

  abbrev Started : Migration → Instance → History → Type 0
  Started m seen h = (seen.id ≡ i.id) × OfflineIf m (status_of h)

  start-Sure : (m : Migration) (h : History) → Sure (Started m) (start_state client m i.id h)
  start-Sure cold h =
      Sure-explained _ _ _
        (Sure-map _ _ _ (λ seen h' s. (s.2, s.0)) (ensure_offline_stops semantics h))
  start-Sure warm h =
      Sure-explained _ _ _ (Sure-last _ _ _ (λ seen e. ((semantics.told h seen e).1, tt)))

  primary-Kept :
      (b : Bool) (h : History) → Every Allowed h → Kept Allowed (primary_disk client b i.id h)
  unfolding get_primary_implicit_disk
  primary-Kept false h kept = Kept-last _ _ _ kept
  primary-Kept true h kept =
      Kept-step _ _ _ _ _ (tt, kept)
        (λ disks e k.
          Kept-then _ _ _ (fail_when-Kept (ltb 2 (length disks)) _ _ k)
            (λ a h1 k1. Kept-last _ _ _ k1))

  primary-Sure :
      (b : Bool) (h : History)
      → Sure (λ p h'. status_of h' ≡ status_of h) (primary_disk client b i.id h)
  unfolding get_primary_implicit_disk
  primary-Sure false h = Sure-done _ _ _ refl
  primary-Sure true h = Sure-step _ _ _ _ _ (λ disks e.
      Sure-after _ _ _ _ (fail_when-Sure (ltb 2 (length disks)) _ _)
        (λ a h1 same. Sure-done _ _ _ (rw same.1 (semantics.kept _ h tt))))

  changed-Kept :
      (b : Bool) (disk : Disk) (again : Run Disk) (h : History)
      → Every Allowed h
      → Kept Allowed (again h)
      → Kept Allowed (changed_or client b disk again h)
  changed-Kept true disk again h kept next = Kept-last _ _ _ kept
  changed-Kept false disk again h kept next = next

  size_change-Kept :
      (ticks n disk old_size : ℕ) (h : History)
      → Every Allowed h
      → Kept Allowed (wait_for_instance_disk_size_change client n disk old_size ticks h)
  unfolding wait_for_instance_disk_size_change
  size_change-Kept zero n disk old_size h kept = Kept-last _ _ _ kept
  size_change-Kept (suc ticks) n disk old_size h kept =
      Kept-call _ _ _ _ (tt, kept)
        (λ seen e k.
          changed-Kept (seen.size != old_size) seen _ _ k
            (size_change-Kept ticks n disk old_size _ k))

  wait_for_size-Kept :
      (ticks : ℕ) (seen : Instance) (primary : Option Disk) (h : History)
      → Every Allowed h
      → Kept Allowed (wait_for_size client ticks seen primary h)
  wait_for_size-Kept ticks seen none h kept = Kept-last _ _ _ kept
  wait_for_size-Kept ticks seen (some disk) h kept =
      Kept-then _ _ _
        (Kept-explained _ _ _ (size_change-Kept ticks seen.id disk.id disk.size h kept))
        (λ a h1 k1. Kept-last _ _ _ k1)

  still_there :
      (seen : Instance) (h1 h2 : History)
      → seen.id ≡ i.id
      → status_of h2 ≡ status_of h1
      → status_of h1 ≡ status_of (new_event_poller seen.id linode_resize ∷ h2)
  still_there seen h1 h2 same e = rw same (sym (semantics.kept _ h2 tt ∙ e))

  change-Kept :
      (ticks : ℕ) (h : History)
      → spec_size_sum d.new_disks ≤ typ.disk_capacity
      → Every Allowed h
      → Kept Allowed
          (change_instance_type client ticks i.id typ.id d.migration_type d.resize_disk h)
  unfolding change_instance_type
  change-Kept ticks h fits kept =
      Kept-after _ (Started d.migration_type) _ _ (start-Kept d.migration_type h kept)
        (start-Sure d.migration_type h)
        (λ seen h1 k1 started.
          Kept-after _ (λ p h'. status_of h' ≡ status_of h1) _ _ (primary-Kept d.resize_disk h1 k1)
            (primary-Sure d.resize_disk h1)
            (λ primary h2 k2 same.
              Kept-step _ _ _ _ _ (tt, k2)
                (λ a e k3.
                  Kept-step _ _ _ _ _
                    (
                      (
                        started.0,
                        refl,
                        fits,
                        subst (OfflineIf d.migration_type) (still_there seen h1 h2 started.0 same)
                            started.1,
                      ),
                      k3,
                    )
                    (λ b e1 k4.
                      Kept-step _ _ _ _ _ (tt, k4)
                        (λ c e2 k5.
                          Kept-step _ _ _ _ _ (tt, k5)
                            (λ resized e3 k6. wait_for_size-Kept ticks resized primary _ k6))))))

-- If the API keeps to the power semantics, a change of type, also one that fails, resizes only this
-- instance, only to the new type, only if the new disks fit on that type, and in a cold migration only
-- while the instance is offline.
pub apply_instance_type_change_resizes :
    (client : Client) (ticks : ℕ) (d : TypeChange) (i : Instance) (typ : LinodeType)
    (status_of : History → Status)
    → PowerSemantics client i.id status_of
    → Every
        (λ c h. TypeAllowed i typ d status_of c h)
        (apply_instance_type_change client ticks d i typ []).1
unfolding apply_instance_type_change assert_disk_config_fits_instance_type
apply_instance_type_change_resizes client ticks d i typ status_of semantics = Kept-holds _ _ (
    Kept-then _ _ _ (check-Kept client i typ d status_of semantics d.resize_disk [] tt) (λ a h1 k1.
      Kept-after _ (λ b h'. spec_size_sum d.new_disks ≤ typ.disk_capacity) _ _
        (fail_when-Kept client i typ d status_of semantics _ _ h1 k1)
        (Sure-map _ _ _ (λ b h' s. fits_type d typ s.0)
          (fail_when-Sure client i typ d status_of semantics _ _ h1))
        (λ b h2 k2 fits. change-Kept client i typ d status_of semantics ticks h2 fits k2)))
