-- ===== src/Instance/Disks/Calls.antt =====
-- The calls of the disk functions, one lemma a function, for any property of calls: only deletions
-- and resizes need a reason.
use terraform_provider_linod.Prelude.Runs.{
  Every, Kept, Kept-explained, Kept-last, Kept-step, Kept-call, Kept-then,
}
use terraform_provider_linod.Prelude.{
  ℕ, String, Bool, true, false, ◌≡◌, refl, ◌≤◌, ltb, Option, none, some, [], ◌∷◌, Result, ok, All,
  arith, nat_eq, string_eq,
}
use terraform_provider_linod.Prelude.Dict.{Dict, get}
use terraform_provider_linod.Instance.{
  Status, offline, running, booting, rebooting, shutting_down, other, Instance, Disk,
  DiskCreateOptions, disk_resize, Call, list_instance_disks, get_instance_disk, wait_for_finished,
  wait_for_instance_disk_ready, shutdown_instance, create_instance_disk as call_create,
  new_event_poller, wait_for_instance_status, delete_instance_disk, resize_instance_disk, Client,
  History,
}
use terraform_provider_linod.Instance.Disks.{
  DiskSpec, change_instance_disk_size, resize_within, resize_offline, prepare_resize, fail_if,
  Diffs, create_instance_disk,
}
use terraform_provider_linod.Instance.Disks.Update.{
  delete_found, delete_removed, resize_if, keep_filesystem, update_existing, create_added,
  apply_diffs,
}

-- The calls of the disk functions that neither create nor delete nor resize a disk.
abbrev pub IsHarmless : Call → Type 0
IsHarmless (list_instance_disks n) = Unit
IsHarmless (get_instance_disk n d) = Unit
IsHarmless (new_event_poller n action) = Unit
IsHarmless (wait_for_finished n action) = Unit
IsHarmless (wait_for_instance_status n status) = Unit
IsHarmless (wait_for_instance_disk_ready n d) = Unit
IsHarmless (shutdown_instance n) = Unit
IsHarmless _ = ⊥

module _ (client : Client) (P : Call → History → Type 0)
    (harmless : (c : Call) (h : History) → IsHarmless c → P c h) (i : Instance) where
  -- The reason for a resize: the API answered that the instance is offline, and the size fits.
  abbrev pub MayResize : Type 0
  MayResize =
      (d s : ℕ) (h : History) (seen : Instance)
      → s ≤ i.disk_capacity
      → client.answers_instance (wait_for_instance_status i.id offline) h ≡ ok seen
      → P (resize_instance_disk i.id d s)
          (new_event_poller i.id disk_resize ∷ wait_for_instance_status i.id offline ∷ h)

  calm : (c : Call) (h : History) → IsHarmless c → Every P h → Every P (c ∷ h)
  calm c h safe kept = (harmless c h safe, kept)

  fail_if-Kept : (differs : Bool) (h : History) → Every P h → Kept P (fail_if client differs h)
  fail_if-Kept true h kept = Kept-last _ _ _ kept
  fail_if-Kept false h kept = Kept-last _ _ _ kept

  resize_offline-Kept :
      (may : MayResize) (disk : Disk) (s : ℕ) (h : History)
      → s ≤ i.disk_capacity
      → Every P h
      → Kept P (resize_offline client i disk s h)
  resize_offline-Kept may disk s h fits kept = Kept-step _ _ _ _ _ (calm _ _ tt kept) (λ seen e k1.
      Kept-step _ _ _ _ _ (calm _ _ tt k1) (λ a e1 k2.
        Kept-step _ _ _ _ _ (may disk.id s h seen fits e, k2)
          (λ b e2 k3. Kept-step _ _ _ _ _ (calm _ _ tt k3) (λ c e3 k4.
            Kept-step _ _ _ _ _ (calm _ _ tt k4) (λ updated e4 k5. fail_if-Kept _ _ k5)))))

  prepare-Kept : (s : Status) (h : History) → Every P h → Kept P (prepare_resize client i s h)
  prepare-Kept shutting_down h kept =
      Kept-step _ _ _ _ _ (calm _ _ tt kept) (λ seen e k1. Kept-last _ _ _ k1)
  prepare-Kept offline h kept = Kept-last _ _ _ kept
  prepare-Kept running h kept = Kept-last _ _ _ (calm _ _ tt kept)
  prepare-Kept booting h kept = Kept-last _ _ _ (calm _ _ tt kept)
  prepare-Kept rebooting h kept = Kept-last _ _ _ (calm _ _ tt kept)
  prepare-Kept (other s) h kept = Kept-last _ _ _ (calm _ _ tt kept)

  not_too_large : (s : ℕ) → ltb i.disk_capacity s ≡ false → s ≤ i.disk_capacity
  not_too_large s e = ground arith

  resize_within-Kept :
      (may : MayResize) (too_large : Bool) (disk : Disk) (s : ℕ) (h : History)
      → ltb i.disk_capacity s ≡ too_large
      → Every P h
      → Kept P (resize_within client too_large i disk s h)
  resize_within-Kept may true disk s h e kept = Kept-last _ _ _ kept
  resize_within-Kept may false disk s h e kept =
      Kept-then _ _ _ (prepare-Kept i.status h kept)
        (λ a h1 k1. resize_offline-Kept may disk s h1 (not_too_large s e) k1)

  pub change_size-Kept :
      (may : MayResize) (disk : Disk) (s : ℕ) (h : History)
      → Every P h
      → Kept P (change_instance_disk_size client i disk s h)
  unfolding change_instance_disk_size
  change_size-Kept may disk s h kept =
      resize_within-Kept may (ltb i.disk_capacity s) disk s h refl kept

  keep_filesystem-Kept :
      (differs changed : Bool) (h : History)
      → Every P h
      → Kept P (keep_filesystem client differs changed h)
  keep_filesystem-Kept true changed h kept = Kept-last _ _ _ kept
  keep_filesystem-Kept false changed h kept = Kept-last _ _ _ kept

  resize_if-Kept :
      (may : MayResize) (differs : Bool) (disk : Disk) (spec : DiskSpec) (changed : Bool)
      (h : History)
      → Every P h
      → Kept P (resize_if client differs i disk spec changed h)
  resize_if-Kept may true disk spec changed h kept =
      Kept-then _ _ _ (change_size-Kept may disk spec.size h kept)
        (λ a h1 k1. keep_filesystem-Kept _ true h1 k1)
  resize_if-Kept may false disk spec changed h kept = keep_filesystem-Kept _ changed h kept

  pub update_existing-Kept :
      (may : MayResize) (disks : Dict String Disk) (existing : Dict String DiskSpec)
      (changed : Bool) (h : History)
      → Every P h
      → Kept P (update_existing client i disks existing changed h)
  unfolding update_existing
  update_existing-Kept may disks [] changed h kept = Kept-last _ _ _ kept
  update_existing-Kept may disks ((label, spec) ∷ existing) changed h kept =
      Kept-then _ _ _ (resize_if-Kept may _ _ spec changed h kept)
        (λ changed' h1 k1. update_existing-Kept may disks existing changed' h1 k1)

  abbrev pub MayCreate : Type 0
  MayCreate = (o : DiskCreateOptions) (h : History) → P (call_create i.id o) h

  create-Kept :
      (may : MayCreate) (random : Result String String) (spec : DiskSpec) (h : History)
      → Every P h
      → Kept P (create_instance_disk client random i spec h)
  unfolding create_instance_disk
  create-Kept may random spec h kept = Kept-call _ _ _ _ kept (λ options e k0.
      Kept-step _ _ _ _ _ (calm _ _ tt k0) (λ a e1 k1.
        Kept-step _ _ _ _ _ (may options _, k1)
          (λ created e2 k2. Kept-step _ _ _ _ _ (calm _ _ tt k2) (λ b e3 k3. Kept-last _ _ _ k3))))

  pub create_added-Kept :
      (may : MayCreate) (random : Result String String) (added : Dict String DiskSpec) (h : History)
      → Every P h
      → Kept P (create_added client random i added h)
  unfolding create_added
  create_added-Kept may random [] h kept = Kept-last _ _ _ kept
  create_added-Kept may random ((label, spec) ∷ added) h kept =
      Kept-then _ _ _ (create-Kept may random spec h kept)
        (λ a h1 k1. create_added-Kept may random added h1 k1)

  -- The reason for a deletion, for every disk that stands under a removed label.
  abbrev pub MayDelete : Option Disk → Type 0
  MayDelete none = Unit
  MayDelete (some disk) = (h : History) → P (delete_instance_disk i.id disk.id) h

  delete_found-Kept :
      (found : Option Disk) (h : History)
      → MayDelete found
      → Every P h
      → Kept P (delete_found client i found h)
  delete_found-Kept none h may kept = Kept-last _ _ _ kept
  delete_found-Kept (some disk) h may kept = Kept-step _ _ _ _ _ (calm _ _ tt kept) (λ a e k1.
      Kept-call _ _ _ _ (may _, k1)
        (λ b e1 k2. Kept-explained _ _ _ (Kept-last _ _ _ (calm _ _ tt k2))))

  pub delete_removed-Kept :
      (disks : Dict String Disk) (removed : Dict String DiskSpec) (h : History)
      → All (λ e. MayDelete (get e.0 disks)) removed
      → Every P h
      → Kept P (delete_removed client i disks removed h)
  unfolding delete_removed
  delete_removed-Kept disks [] h may kept = Kept-last _ _ _ kept
  delete_removed-Kept disks ((label, spec) ∷ removed) h may kept =
      Kept-then _ _ _ (delete_found-Kept (get label disks) h may.0 kept)
        (λ a h1 k1. delete_removed-Kept disks removed h1 may.1 k1)

  pub apply_diffs-Kept :
      (random : Result String String) (disks : Dict String Disk) (diffs : Diffs) (h : History)
      → MayCreate
      → MayResize
      → All (λ e. MayDelete (get e.0 disks)) diffs.removed
      → Every P h
      → Kept P (apply_diffs client random i disks diffs h)
  apply_diffs-Kept random disks diffs h may_create may_resize may_delete kept =
      Kept-then _ _ _ (delete_removed-Kept disks diffs.removed h may_delete kept) (λ a h1 k1.
        Kept-then _ _ _ (update_existing-Kept may_resize disks diffs.existing _ h1 k1)
          (λ changed h2 k2.
            Kept-then _ _ _ (create_added-Kept may_create random diffs.added h2 k2)
              (λ b h3 k3. Kept-last _ _ _ k3)))
