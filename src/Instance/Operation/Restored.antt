-- ===== src/Instance/Operation/Restored.antt =====
-- The disk operations bring the instance back to the status that they found it in.
use mathlib.Core.Path.{subst}
use terraform_provider_linod.Prelude.Runs.{
  after, explained, or_fail, done, ◌>>=◌, ◌>>◌, Sure, Sure-holds, Sure-explained, Sure-done,
  Sure-fail, Sure-step, Sure-after, Sure-map,
}
use terraform_provider_linod.Prelude.{
  ℕ, String, Bool, true, false, ◌≡◌, refl, sym, ◌∙◌, ◌⊎◌, inl, inr, List, [], ◌∷◌, Result, ok, err,
  nat_eq,
}
use terraform_provider_linod.Instance.{
  Status, offline, running, Disk, Call, list_instance_disks, get_instance, Client, History, Run,
  Ack, ask_disks,
}
use terraform_provider_linod.Instance.Semantics.{PowerSemantics, KeepsPower}
use terraform_provider_linod.Instance.Power.{wait_for_instance_non_transient_status, settle}
use terraform_provider_linod.Instance.Power.Reached.{boot_reaches}
use terraform_provider_linod.Instance.Operation.{
  attempt, stop_if_running, boot_if_stopped, run_disk_operation, check_size, resize_disk,
  resize_disk_sync, remove_disk,
}
use terraform_provider_linod.Instance.Operation.Power.{stop_if-reaches}

abbrev pub IsFinal : Status → Type 0
IsFinal s = (s ≡ running) ⊎ (s ≡ offline)

module _ {client : Client} {id : ℕ} {status_of : History → Status}
    (semantics : PowerSemantics client id status_of) where
  abbrev HasStatus : {A : Type 0} → Status → A → History → Type 0
  HasStatus s a h = status_of h ≡ s

  abbrev Same : Status → Status → History → Type 0
  Same s t h = (t ≡ s) × (status_of h ≡ s)

  Same-settle :
      (s : Status) (h : History)
      → IsFinal s
      → status_of h ≡ s
      → Sure (Same s) (settle client id s h)
  Same-settle s h (inl r) e = rw r (Sure-done _ _ _ (refl, e ∙ r))
  Same-settle s h (inr o) e = rw o (Sure-done _ _ _ (refl, e ∙ o))

  -- A status that is not transient is returned as it is.
  final_settles :
      (s : Status) (h : History)
      → IsFinal s
      → status_of h ≡ s
      → Sure (Same s) (wait_for_instance_non_transient_status client id h)
  unfolding wait_for_instance_non_transient_status
  final_settles s h final e = Sure-step _ _ _ _ _ (λ i a.
      let t = semantics.told h i a in
      let same = t.0 ∙ semantics.kept _ _ tt ∙ e in
      subst (λ n. Sure (Same s) (settle client n i.status (get_instance id ∷ h))) (sym t.1)
        (subst (λ u. Sure (Same s) (settle client id u (get_instance id ∷ h))) (sym same)
          (Same-settle s _ final (semantics.kept _ _ tt ∙ e))))

  -- Nothing is booted when the API lists no disk.
  abbrev pub NoDisks : History → Type 0
  NoDisks [] = ⊥
  NoDisks (c ∷ h) = client.answers_disks c h ≡ ok []

  abbrev pub Restored : Status → {A : Type 0} → A → History → Type 0
  Restored s a h = (status_of h ≡ s) ⊎ NoDisks h

  boot_if-restores :
      (disks : List Disk) (s : Status) (h : History)
      → client.answers_disks (list_instance_disks id) h ≡ ok disks
      → IsFinal s
      → status_of h ≡ offline
      → Sure (Restored s) (boot_if_stopped client disks id s (list_instance_disks id ∷ h))
  boot_if-restores [] s h listed final e = Sure-done _ _ _ (inr listed)
  boot_if-restores (d ∷ disks) s h listed (inl r) e =
      rw r (Sure-explained _ _ _ (Sure-map _ _ _ (λ a h1 b. inl b) (boot_reaches semantics 0 _)))
  boot_if-restores (d ∷ disks) s h listed (inr o) e =
      rw o (Sure-done _ _ _ (inl (semantics.kept _ _ tt ∙ e)))

  abbrev finish : {A : Type 0} → Status → A → Run A
  finish s result =
      or_fail "Failed to list instance disks after operation"
        (ask_disks client (list_instance_disks id))
      >>= (λ disks. boot_if_stopped client disks id s >> done result)

  finish-restores :
      {A : Type 0} (s : Status) (result : A) (h : History)
      → IsFinal s
      → status_of h ≡ offline
      → Sure (Restored s) (finish s result h)
  finish-restores s result h final off = Sure-step _ _ _ _ _ (λ disks listed.
      Sure-after _ _ _ _ (boot_if-restores disks _ h listed final off)
        (λ b h4 restored. Sure-done _ _ _ restored))

  -- An operation that leaves an instance offline is undone around.
  run-restores :
      {A : Type 0} (skip : Bool) (op : Run A) (h : History)
      → ((h1 : History) → status_of h1 ≡ offline → Sure (HasStatus offline) (op h1))
      → IsFinal (status_of h)
      → Sure (Restored (status_of h)) (run_disk_operation client skip id op h)
  unfolding run_disk_operation
  run-restores skip op h op-offline final =
      Sure-after _ _ _ _ (Sure-explained _ _ _ (final_settles _ h final refl)) (λ t h1 settled.
        subst
          (λ u.
            Sure (Restored (status_of h))
              ((stop_if_running client u skip id >> (op >>= finish u)) h1))
          (sym settled.0)
          (Sure-after _ (HasStatus offline) _ _
            (stop_if-reaches semantics _ skip h1 (settled.1, final))
            (λ a h2 stopped.
              Sure-after _ _ _ _ (op-offline h2 stopped)
                (λ result h3 off. finish-restores _ result h3 final off))))

  still :
      {c : Call} {h : History} → KeepsPower c → status_of h ≡ offline → status_of (c ∷ h) ≡ offline
  still keeps off = semantics.kept _ _ keeps ∙ off

  check_size-offline :
      (wrong : Bool) (h : History)
      → status_of h ≡ offline
      → Sure (HasStatus offline) (check_size client wrong h)
  check_size-offline true h off = Sure-fail _ _ _
  check_size-offline false h off = Sure-done _ _ _ off

  resize-offline :
      (disk size : ℕ) (h : History)
      → status_of h ≡ offline
      → Sure (HasStatus offline) (resize_disk client id disk size h)
  unfolding resize_disk
  resize-offline disk size h off = Sure-step _ _ _ _ _ (λ d e1. Sure-step _ _ _ _ _ (λ a e2.
      Sure-step _ _ _ _ _ (λ b e3. Sure-step _ _ _ _ _ (λ c e4. Sure-step _ _ _ _ _ (λ u e5.
        check_size-offline _ _ (still tt (still tt (still tt (still tt (still tt off))))))))))

  -- The deletion leaves the instance offline when it fails, too.
  step-offline :
      {A B : Type 0} (message : String) (answer : Result String A) (f : A → Run B) (h : History)
      → status_of h ≡ offline
      → ((a : A) → status_of (f a h).1 ≡ offline)
      → status_of (after f (explained message (answer, h))).1 ≡ offline
  unfolding after explained
  step-offline message (ok a) f h off next = next a
  step-offline message (err e) f h off next = off

  explained-offline :
      {A : Type 0} (message : String) (answer : Result String A) (h : History)
      → status_of h ≡ offline
      → status_of (explained message (answer, h)).1 ≡ offline
  unfolding explained
  explained-offline message (ok a) h off = off
  explained-offline message (err e) h off = off

  remove-offline :
      (disk : ℕ) (h : History)
      → status_of h ≡ offline
      → status_of (remove_disk client id disk h).1 ≡ offline
  unfolding remove_disk
  remove-offline disk h off = step-offline _ _ _ _ (still tt off) (λ a.
      step-offline _ _ _ _ (still tt (still tt off))
        (λ b. explained-offline _ _ _ (still tt (still tt (still tt off)))))

  -- If the API keeps to the power semantics and the instance is running or offline, the operation
  -- of a deletion that succeeds leaves it in that status whether the disk was deleted or not,
  -- unless the API lists no disk afterwards.
  pub delete_disk_restores :
      (skip : Bool) (disk : ℕ) (h h' : History) (deleted : Result String Ack)
      → IsFinal (status_of h)
      → run_disk_operation client skip id (attempt (remove_disk client id disk)) h
        ≡ (ok deleted, h')
      → (status_of h' ≡ status_of h) ⊎ NoDisks h'
  delete_disk_restores skip disk h h' deleted final e =
      Sure-holds (Restored (status_of h))
        (run-restores skip _ h (λ h1 off. Sure-done _ _ _ (remove-offline disk h1 off)) final) e

  -- If the API keeps to the power semantics and the instance is running or offline, a resize of a
  -- disk that succeeds leaves it in that status, unless the API lists no disk afterwards.
  pub resize_disk_sync_restores :
      (skip : Bool) (disk size : ℕ) (h h' : History) (a : Ack)
      → IsFinal (status_of h)
      → resize_disk_sync client skip id disk size h ≡ (ok a, h')
      → (status_of h' ≡ status_of h) ⊎ NoDisks h'
  unfolding resize_disk_sync
  resize_disk_sync_restores skip disk size h h' a final e =
      Sure-holds (Restored (status_of h)) (run-restores skip _ h (resize-offline disk size) final) e
