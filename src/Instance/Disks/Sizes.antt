-- ===== src/Instance/Disks/Sizes.antt =====
-- When an update may resize a disk, and what a resize that succeeds has seen.
use terraform_provider_linod.Prelude.Runs.{
  Sure, Sure-step, Sure-fail, Sure-done, Sure-any, Sure-map, Sure-holds, Sure-after, Every, Kept,
  Kept-holds, Kept-step, Kept-last, Kept-then, Kept-call,
}
use terraform_provider_linod.Prelude.{
  ℕ, String, Bool, true, false, ◌≡◌, refl, ◌∙◌, ◌≤◌, Option, none, some, List, [], ◌∷◌, Result, ok,
  All, arith, ◌!=◌, nat_eq, string_eq, ==_iff, ltb,
}
use terraform_provider_linod.Prelude.Dict.{Dict, get}
use terraform_provider_linod.Instance.{
  Status, offline, Instance, Disk, Call, resize_instance_disk, wait_for_instance_disk_ready, Client,
  History, Ack,
}
use terraform_provider_linod.Instance.Semantics.{PowerSemantics}
use terraform_provider_linod.Instance.Disks.{
  DiskSpec, get_instance_disks, change_instance_disk_size, resize_within, resize_offline, fail_if,
  disk_specs_by_label, get_instance_disk_spec_diffs,
}
use terraform_provider_linod.Instance.Disks.Update.{update_instance_disks}
use terraform_provider_linod.Instance.Disks.Calls.{MayDelete, IsHarmless, apply_diffs-Kept}

-- A resize is judged: the disk size fits the instance, which is offline.
abbrev pub ResizeAllowed : Instance → (History → Status) → Call → History → Type 0
ResizeAllowed i status_of (resize_instance_disk n d s) h =
    (n ≡ i.id) × (s ≤ i.disk_capacity) × (status_of h ≡ offline)
ResizeAllowed i status_of _ h = Unit

module _ (i : Instance) (client : Client) (status_of : History → Status) where
  abbrev Allowed : Call → History → Type 0
  Allowed c h = ResizeAllowed i status_of c h

  harmless : (c : Call) (h : History) → IsHarmless c → Allowed c h
  harmless (resize_instance_disk n d s) h safe = absurd safe
  harmless _ h safe = tt

  may_delete : (found : Option Disk) → MayDelete client Allowed harmless i found
  may_delete none = tt
  may_delete (some disk) = λ h. tt

  All-MayDelete :
      (disks : Dict String Disk) (removed : Dict String DiskSpec)
      → All (λ e. MayDelete client Allowed harmless i (get e.0 disks)) removed
  All-MayDelete disks [] = tt
  All-MayDelete disks (e ∷ removed) = (may_delete (get e.0 disks), All-MayDelete disks removed)

  disks-Kept : (h : History) → Every Allowed h → Kept Allowed (get_instance_disks client i.id h)
  unfolding get_instance_disks
  disks-Kept h kept = Kept-step _ _ _ _ _ (tt, kept) (λ disks e k1. Kept-last _ _ _ k1)

  update-Kept :
      (semantics : PowerSemantics client i.id status_of) (random : Result String String)
      (old new : List DiskSpec)
      → Kept Allowed (update_instance_disks client random i old new [])
  unfolding update_instance_disks
  update-Kept semantics random old new =
      let diffs =
        get_instance_disk_spec_diffs (disk_specs_by_label old []) (disk_specs_by_label new []) in
      Kept-then _ _ _ (disks-Kept [] tt) (λ disks h1 k1. Kept-call _ _ _ _ k1 (λ a e k2.
        apply_diffs-Kept client Allowed harmless i random disks diffs h1 (λ o h. tt)
          (λ d s h seen fits off.
            (refl, fits, semantics.kept _ _ tt ∙ (semantics.waited offline h seen off).1))
          (All-MayDelete disks diffs.removed) k2))

-- If the API keeps to the power semantics, an update, also one that fails, resizes a disk only of this
-- instance, only to a size within its capacity, and only while it is offline.
pub update_instance_disks_resizes :
    (client : Client) (random : Result String String) (i : Instance) (status_of : History → Status)
    (old new : List DiskSpec)
    → PowerSemantics client i.id status_of
    → Every
        (λ c h. ResizeAllowed i status_of c h)
        (update_instance_disks client random i old new []).1
update_instance_disks_resizes client random i status_of old new semantics =
    Kept-holds _ _ (update-Kept i client status_of semantics random old new)

-- The API's last answer about the disk has the size asked for.
abbrev pub Confirmed : Client → Instance → Disk → ℕ → History → Type 0
Confirmed client i disk s [] = ⊥
Confirmed client i disk s (c ∷ h) =
    (c ≡ wait_for_instance_disk_ready i.id disk.id)
    × ((updated : Disk) × (client.answers_disk c h ≡ ok updated) × (updated.size ≡ s))

module _ (client : Client) (i : Instance) (disk : Disk) (s : ℕ) where
  fail_if_confirms :
      (updated : Disk) (differs : Bool) (h : History)
      → (differs ≡ false → Confirmed client i disk s h)
      → Sure (λ a h'. Confirmed client i disk s h') (fail_if client differs h)
  fail_if_confirms updated true h c = Sure-fail _ _ _
  fail_if_confirms updated false h c = Sure-done _ _ _ (c refl)

  resize_confirms :
      (h : History) → Sure (λ a h'. Confirmed client i disk s h') (resize_offline client i disk s h)
  resize_confirms h = Sure-step _ _ _ _ _ (λ a e. Sure-step _ _ _ _ _ (λ b e1.
      Sure-step _ _ _ _ _ (λ c e2. Sure-step _ _ _ _ _ (λ d e3. Sure-step _ _ _ _ _ (λ updated e4.
        fail_if_confirms updated (updated.size != s) _
          (λ same. (refl, (updated, e4, ground (arith, ==_iff updated.size s)))))))))

  within_confirms :
      (too_large : Bool) (h : History)
      → ltb i.disk_capacity s ≡ too_large
      → Sure
          (λ a h'. (s ≤ i.disk_capacity) × Confirmed client i disk s h')
          (resize_within client too_large i disk s h)
  within_confirms true h e = Sure-fail _ _ _
  within_confirms false h e =
      Sure-after _ _ _ _ (Sure-any _)
        (λ a h1 u. Sure-map _ _ _ (λ b h2 c. (ground arith, c)) (resize_confirms h1))

-- A resize that succeeds was within the capacity of the instance, and its last call was the wait for
-- the disk, which the API answered with the size asked for.
pub change_instance_disk_size_confirms :
    (client : Client) (i : Instance) (disk : Disk) (s : ℕ) (h h' : History) (a : Ack)
    → change_instance_disk_size client i disk s h ≡ (ok a, h')
    → (s ≤ i.disk_capacity) × Confirmed client i disk s h'
unfolding change_instance_disk_size
change_instance_disk_size_confirms client i disk s h h' a e =
    Sure-holds (λ b h1. (s ≤ i.disk_capacity) × Confirmed client i disk s h1)
      (within_confirms client i disk s (ltb i.disk_capacity s) h refl) e
