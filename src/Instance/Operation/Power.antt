-- ===== src/Instance/Operation/Power.antt =====
-- The disk operations run while the instance is offline, and bring it back to its state.
use terraform_provider_linod.Prelude.Runs.{
  Sure, Sure-explained, Sure-done, Sure-fail, Every, Kept, Kept-holds, Kept-explained, Kept-last,
  Kept-step, Kept-after, Kept-then,
}
use terraform_provider_linod.Prelude.{
  ℕ, Bool, true, false, ◌≡◌, ◌∙◌, inl, inr, List, [], ◌∷◌, nat_eq,
}
use terraform_provider_linod.Instance.{
  Status, offline, running, booting, rebooting, shutting_down, other, Disk, Call,
  resize_instance_disk, delete_instance_disk, Client, History, Run,
}
use terraform_provider_linod.Instance.Semantics.{PowerSemantics, KeepsPower}
use terraform_provider_linod.Instance.Power.{
  wait_for_instance_non_transient_status, settle, wait_to_reach, shut_down_instance_sync,
  boot_instance_sync,
}
use terraform_provider_linod.Instance.Power.Reached.{Settled, non_transient_settles, stop_reaches}
use terraform_provider_linod.Instance.Operation.{
  attempt, stop_if_running, boot_if_stopped, run_disk_operation, check_size, resize_disk,
  resize_disk_sync, remove_disk, delete_disk_sync,
}

-- A change of a disk is judged: the instance is offline.
abbrev pub OfflineChange : (History → Status) → Call → History → Type 0
OfflineChange status_of (resize_instance_disk n d s) h = status_of h ≡ offline
OfflineChange status_of (delete_instance_disk n d) h = status_of h ≡ offline
OfflineChange status_of _ h = Unit

module _ {client : Client} {id : ℕ} {status_of : History → Status}
    (semantics : PowerSemantics client id status_of) where
  abbrev Allowed : Call → History → Type 0
  Allowed c h = OfflineChange status_of c h

  wait-Kept :
      (n : ℕ) (target : Status) (h : History)
      → Every Allowed h
      → Kept Allowed (wait_to_reach client n target h)
  wait-Kept n target h kept = Kept-step _ _ _ _ _ (tt, kept) (λ i e k. Kept-last _ _ _ k)

  settle-Kept :
      (n : ℕ) (s : Status) (h : History) → Every Allowed h → Kept Allowed (settle client n s h)
  settle-Kept n booting h kept = wait-Kept n running h kept
  settle-Kept n rebooting h kept = wait-Kept n running h kept
  settle-Kept n shutting_down h kept = wait-Kept n offline h kept
  settle-Kept n running h kept = Kept-last _ _ _ kept
  settle-Kept n offline h kept = Kept-last _ _ _ kept
  settle-Kept n (other s) h kept = Kept-last _ _ _ kept

  non_transient-Kept :
      (h : History)
      → Every Allowed h
      → Kept Allowed (wait_for_instance_non_transient_status client id h)
  unfolding wait_for_instance_non_transient_status
  non_transient-Kept h kept =
      Kept-step _ _ _ _ _ (tt, kept) (λ i e k. settle-Kept i.id i.status _ k)

  stop-Kept : (h : History) → Every Allowed h → Kept Allowed (shut_down_instance_sync client id h)
  unfolding shut_down_instance_sync
  stop-Kept h kept =
      Kept-step _ _ _ _ _ (tt, kept)
        (λ a e k1.
          Kept-step _ _ _ _ _ (tt, k1) (λ b e1 k2. Kept-explained _ _ _ (Kept-last _ _ _ (tt, k2))))

  boot-Kept :
      (config : ℕ) (h : History)
      → Every Allowed h
      → Kept Allowed (boot_instance_sync client id config h)
  unfolding boot_instance_sync
  boot-Kept config h kept =
      Kept-step _ _ _ _ _ (tt, kept)
        (λ a e k1.
          Kept-step _ _ _ _ _ (tt, k1) (λ b e1 k2. Kept-explained _ _ _ (Kept-last _ _ _ (tt, k2))))

  stop_if-Kept :
      (s : Status) (skip : Bool) (h : History)
      → Every Allowed h
      → Kept Allowed (stop_if_running client s skip id h)
  stop_if-Kept running true h kept = Kept-last _ _ _ kept
  stop_if-Kept running false h kept = Kept-explained _ _ _ (stop-Kept h kept)
  stop_if-Kept offline skip h kept = Kept-last _ _ _ kept
  stop_if-Kept booting skip h kept = Kept-last _ _ _ kept
  stop_if-Kept rebooting skip h kept = Kept-last _ _ _ kept
  stop_if-Kept shutting_down skip h kept = Kept-last _ _ _ kept
  stop_if-Kept (other s) skip h kept = Kept-last _ _ _ kept

  boot_if-Kept :
      (disks : List Disk) (s : Status) (h : History)
      → Every Allowed h
      → Kept Allowed (boot_if_stopped client disks id s h)
  boot_if-Kept [] s h kept = Kept-last _ _ _ kept
  boot_if-Kept (d ∷ disks) running h kept = Kept-explained _ _ _ (boot-Kept 0 h kept)
  boot_if-Kept (d ∷ disks) offline h kept = Kept-last _ _ _ kept
  boot_if-Kept (d ∷ disks) booting h kept = Kept-last _ _ _ kept
  boot_if-Kept (d ∷ disks) rebooting h kept = Kept-last _ _ _ kept
  boot_if-Kept (d ∷ disks) shutting_down h kept = Kept-last _ _ _ kept
  boot_if-Kept (d ∷ disks) (other s) h kept = Kept-last _ _ _ kept

  stop_running-reaches :
      (skip : Bool) (h : History)
      → Sure (λ a h'. status_of h' ≡ offline) (stop_if_running client running skip id h)
  stop_running-reaches true h = Sure-fail _ _ _
  stop_running-reaches false h = Sure-explained _ _ _ (stop_reaches semantics h)

  pub stop_if-reaches :
      (s : Status) (skip : Bool) (h : History)
      → Settled semantics s h
      → Sure (λ a h'. status_of h' ≡ offline) (stop_if_running client s skip id h)
  stop_if-reaches s skip h (e, inl r) = rw r (stop_running-reaches skip h)
  stop_if-reaches s skip h (e, inr o) = rw o (Sure-done _ _ _ (e ∙ o))

  -- An operation that is allowed offline is allowed within `run_disk_operation`.
  run-Kept :
      {A : Type 0} (skip : Bool) (op : Run A) (h : History)
      → ((h1 : History) → status_of h1 ≡ offline → Every Allowed h1 → Kept Allowed (op h1))
      → Every Allowed h
      → Kept Allowed (run_disk_operation client skip id op h)
  unfolding run_disk_operation
  run-Kept skip op h op-Kept kept =
      Kept-after _ (Settled semantics) _ _ (Kept-explained _ _ _ (non_transient-Kept h kept))
        (Sure-explained _ _ _ (non_transient_settles semantics h))
        (λ s h1 k1 settled.
          Kept-after _ (λ a h'. status_of h' ≡ offline) _ _ (stop_if-Kept s skip h1 k1)
            (stop_if-reaches s skip h1 settled)
            (λ a h2 k2 stopped. Kept-then _ _ _ (op-Kept h2 stopped k2) (λ result h3 k3.
              Kept-step _ _ _ _ _ (tt, k3)
                (λ disks e k4.
                  Kept-then _ _ _ (boot_if-Kept disks s _ k4) (λ b h5 k5. Kept-last _ _ _ k5)))))

  still :
      {c : Call} {h : History} → KeepsPower c → status_of h ≡ offline → status_of (c ∷ h) ≡ offline
  still keeps off = semantics.kept _ _ keeps ∙ off

  check_size-Kept :
      (wrong : Bool) (h : History) → Every Allowed h → Kept Allowed (check_size client wrong h)
  check_size-Kept true h kept = Kept-last _ _ _ kept
  check_size-Kept false h kept = Kept-last _ _ _ kept

  resize-Kept :
      (disk size : ℕ) (h : History)
      → status_of h ≡ offline
      → Every Allowed h
      → Kept Allowed (resize_disk client id disk size h)
  unfolding resize_disk
  resize-Kept disk size h off kept =
      Kept-step _ _ _ _ _ (tt, kept)
        (λ d e1 k1.
          Kept-step _ _ _ _ _ (tt, k1)
            (λ a e2 k2.
              Kept-step _ _ _ _ _ (still tt (still tt off), k2)
                (λ b e3 k3.
                  Kept-step _ _ _ _ _ (tt, k3)
                    (λ c e4 k4. Kept-step _ _ _ _ _ (tt, k4) (λ u e5 k5. check_size-Kept _ _ k5)))))

  remove-Kept :
      (disk : ℕ) (h : History)
      → status_of h ≡ offline
      → Every Allowed h
      → Kept Allowed (remove_disk client id disk h)
  unfolding remove_disk
  remove-Kept disk h off kept =
      Kept-step _ _ _ _ _ (tt, kept)
        (λ a e1 k1.
          Kept-step _ _ _ _ _ (still tt off, k1)
            (λ b e2 k2. Kept-explained _ _ _ (Kept-last _ _ _ (tt, k2))))

  attempt-Kept :
      (disk : ℕ) (h : History)
      → status_of h ≡ offline
      → Every Allowed h
      → Kept Allowed (attempt (remove_disk client id disk) h)
  attempt-Kept disk h off kept = Kept-last _ _ _ (Kept-holds _ _ (remove-Kept disk h off kept))

  -- If the API keeps to the power semantics, a resize or a deletion of a disk makes its changes
  -- while the instance is offline, whether it succeeds or not.
  pub disk_operations_offline :
      (skip : Bool) (disk size : ℕ) (h : History)
      → Every (OfflineChange status_of) h
      → Every (OfflineChange status_of) (resize_disk_sync client skip id disk size h).1
        × Every (OfflineChange status_of) (delete_disk_sync client skip id disk h).1
  unfolding resize_disk_sync delete_disk_sync
  disk_operations_offline skip disk size h kept = (
    Kept-holds _ _ (run-Kept skip _ h (resize-Kept disk size) kept),
    Kept-holds _ _ (
        Kept-then _ _ _ (run-Kept skip _ h (attempt-Kept disk) kept)
          (λ result h1 k1. Kept-last _ _ _ k1)),
  )
