-- ===== src/Instance/Update/Explicit.antt =====
-- The disks of an update of an instance: explicit ones and the swap disk change where the configuration
-- asks for it.
use terraform_provider_linod.Prelude.Runs.{
  fail, ◌>>◌, Every, Kept, Kept-explained, Kept-last, Kept-step, Kept-call, Kept-then,
}
use terraform_provider_linod.Prelude.{
  ℕ, String, Bool, true, false, ◌≡◌, inl, inr, refl, Option, none, some, List, [], ◌∷◌, nat_eq,
  string_eq, if◌then◌else◌, All,
}
use terraform_provider_linod.Prelude.Dict.{Dict, get}
use terraform_provider_linod.Instance.{
  LinodeType, Status, offline, running, booting, rebooting, shutting_down, other, Instance, Disk,
  Call, History, Run,
}
use terraform_provider_linod.Instance.Disks.{
  DiskSpec, get_instance_disks, disk_specs_by_label, get_instance_disk_spec_diffs, prepare_resize,
}
use terraform_provider_linod.Instance.Disks.Update.{update_instance_disks}
use terraform_provider_linod.Instance.Disks.Calls.{MayDelete, change_size-Kept, apply_diffs-Kept}
use terraform_provider_linod.Instance.Swap.{
  Target, size, below, grows, change_below, change_to, resize_each, resize_both,
  adjust_swap_size_if_needed, find_disk_by_fs,
}
use terraform_provider_linod.Instance.Update.{ResourceData, Provider}
use terraform_provider_linod.Instance.Update.Handler.{apply_instance_disk_spec, change_disks}
use terraform_provider_linod.Instance.Update.Parts.{assert-Kept}
use terraform_provider_linod.Instance.Update.Justified.{
  explicit_disks, swap_changes, P, quiet, harmless,
}

module _ (p : Provider) (d : ResourceData) where
  abbrev Q : Call → History → Type 0
  Q c h = P p d c h

  module _ (explicit : d.image_is_null ≡ true) where
    may_delete :
        (i : Instance) (found : Option Disk)
        → MayDelete p.client Q (harmless p d (explicit_disks explicit)) i found
    may_delete i none = tt
    may_delete i (some disk) = λ h. explicit

    MayDelete-All :
        (i : Instance) (disks : Dict String Disk) (removed : Dict String DiskSpec)
        → All
            (λ e. MayDelete p.client Q (harmless p d (explicit_disks explicit)) i (get e.0 disks))
            removed
    MayDelete-All i disks [] = tt
    MayDelete-All i disks (e ∷ removed) =
        (may_delete i (get e.0 disks), MayDelete-All i disks removed)

    update_disks-Kept :
        (i : Instance) (h : History)
        → Every Q h
        → Kept Q (update_instance_disks p.client p.random i d.disk.old d.disk.new h)
    unfolding update_instance_disks get_instance_disks
    update_disks-Kept i h kept =
        let diffs =
          get_instance_disk_spec_diffs (disk_specs_by_label d.disk.old [])
            (disk_specs_by_label d.disk.new []) in
        Kept-then _ _ _ (Kept-step _ _ _ _ _ (tt, kept) (λ disks e k. Kept-last _ _ _ k))
          (λ disks h1 k1. Kept-call _ _ _ _ k1 (λ a e k2.
            apply_diffs-Kept p.client Q (harmless p d (explicit_disks explicit)) i p.random disks
              diffs h1 (λ o k. explicit) (λ disk s k seen fits off. inl explicit)
              (MayDelete-All i disks diffs.removed) k2))

  pub change_disks-Kept :
      (explicit : Bool) (typ : LinodeType) (i : Instance) (h : History)
      → d.image_is_null ≡ explicit
      → Every Q h
      → Kept Q (change_disks p explicit d typ i h)
  unfolding apply_instance_disk_spec
  change_disks-Kept true typ i h e kept = Kept-explained _ _ _ (
      Kept-then _ _ _ (assert-Kept p.client Q (quiet p d) d.disk.new typ h kept)
        (λ a k k1. update_disks-Kept e i k k1))
  change_disks-Kept false typ i h e kept = Kept-last _ _ _ kept

  module _ (changed : d.swap_size.has_change ≡ true) (i : Instance) where
    prepare-Kept : (s : Status) (h : History) → Every Q h → Kept Q (prepare_resize p.client i s h)
    prepare-Kept shutting_down h kept =
        Kept-step _ _ _ _ _ (tt, kept) (λ seen e k. Kept-last _ _ _ k)
    prepare-Kept offline h kept = Kept-last _ _ _ kept
    prepare-Kept running h kept = Kept-last _ _ _ (swap_changes changed, kept)
    prepare-Kept booting h kept = Kept-last _ _ _ (swap_changes changed, kept)
    prepare-Kept rebooting h kept = Kept-last _ _ _ (swap_changes changed, kept)
    prepare-Kept (other s) h kept = Kept-last _ _ _ (swap_changes changed, kept)

    below-Kept :
        (disk : Disk) (n : ℕ) (h : History) → Every Q h → Kept Q (change_below p.client i disk n h)
    below-Kept disk n h kept = Kept-then _ _ _ (prepare-Kept i.status h kept) (λ a k k1.
        Kept-step _ _ _ _ _ (tt, k1)
          (λ seen e k2.
            Kept-step _ _ _ _ _ (tt, k2)
              (λ b e1 k3.
                Kept-step _ _ _ _ _ (changed, k3)
                  (λ c e2 k4.
                    Kept-step _ _ _ _ _ (tt, k4)
                      (λ o e3 k5. Kept-step _ _ _ _ _ (tt, k5) (λ u e4 k6. Kept-last _ _ _ k6))))))

    change_to-Kept :
        (disk : Disk) (target : Target) (h : History)
        → Every Q h
        → Kept Q (change_to p.client i disk target h)
    change_to-Kept disk (size n) h kept =
        change_size-Kept p.client Q (harmless p d (swap_changes changed)) i
          (λ k s l seen fits off. inr changed) disk n h kept
    change_to-Kept disk (below n) h kept = below-Kept disk n h kept

    each-Kept :
        (sizes : List (Target × Disk)) (h : History)
        → Every Q h
        → Kept Q (resize_each p.client i sizes h)
    each-Kept [] h kept = Kept-last _ _ _ kept
    each-Kept ((target, disk) ∷ sizes) h kept =
        Kept-then _ _ _ (change_to-Kept disk target h kept) (λ a k k1. each-Kept sizes k k1)

    boot_only-Kept :
        (boot_grows : Bool) (boot : Disk) (target : Target) (message : String) (h : History)
        → Every Q h
        → Kept {A = Bool} Q (
            (if boot_grows
                then fail message
                else (change_to p.client i boot target >> fail message))
              h)
    boot_only-Kept true boot target message h kept = Kept-last _ _ _ kept
    boot_only-Kept false boot target message h kept =
        Kept-then _ _ _ (change_to-Kept boot target h kept) (λ a k k1. Kept-last _ _ _ k1)

    both-Kept :
        (boot swap : Option Disk) (h : History)
        → Every Q h
        → Kept Q (resize_both p.client i d.swap_size.old d.swap_size.new boot swap h)
    both-Kept none swap h kept = Kept-last _ _ _ kept
    both-Kept (some boot) none h kept = boot_only-Kept (grows boot.size _) boot _ _ h kept
    both-Kept (some boot) (some swap) h kept = each-Kept _ h kept

  when-Kept :
      (b : Bool) (m n : Run Bool) (h : History)
      → Kept Q (n h)
      → (b ≡ true → Kept Q (m h))
      → Kept Q ((if b then m else n) h)
  when-Kept true m n h second first = first refl
  when-Kept false m n h second first = second

  pub swap-Kept :
      (i : Instance) (h : History)
      → Every Q h
      → Kept Q (adjust_swap_size_if_needed p.client i d.swap_size h)
  unfolding adjust_swap_size_if_needed
  swap-Kept i h kept = when-Kept d.swap_size.has_change _ _ h (Kept-last _ _ _ kept) (λ changed.
      Kept-step _ _ _ _ _ (tt, kept)
        (λ disks f k.
          both-Kept changed i (find_disk_by_fs disks "ext4") (find_disk_by_fs disks "swap") _ k))
