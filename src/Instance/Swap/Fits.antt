-- ===== src/Instance/Swap/Fits.antt =====
-- The sizes of the boot and swap disks while the swap size is adjusted.
use mathlib.Core.Path.{subst}
use terraform_provider_linod.Prelude.Runs.{Every, after, explained}
use terraform_provider_linod.Prelude.{
  ℕ, ◌+◌, ◌≤◌, String, Bool, true, false, ◌≡◌, ◌≢◌, refl, sym, ◌∙◌, ltb, [], ◌∷◌, Result, ok, err,
  ◌!=◌, nat_eq, string_eq, arith,
}
use terraform_provider_linod.Instance.{
  Status, offline, running, booting, rebooting, shutting_down, other, Instance, Disk, disk_resize,
  Run, act, wait_for_finished, Call, Ack, resize_instance_disk, Client, History,
}
use terraform_provider_linod.Instance.Disks.{
  change_instance_disk_size, resize_within, resize_offline, prepare_resize, fail_if, confirm_resize,
  finish_resize,
}
use terraform_provider_linod.Instance.Disks.Calls.{IsHarmless}
use terraform_provider_linod.Instance.Swap.{size, in_order, resize_each}

-- What the code relies on the API for: a resize that is accepted sets the size of its disk and one that is
-- refused does not, and of the other calls none that the code makes here changes a size.
pub record SizeSemantics (client : Client) (id : ℕ) (size_of : ℕ → History → ℕ) : Type 0 where
  pub resized :
      (d s : ℕ) (h : History) (a : Ack)
      → client.acts (resize_instance_disk id d s) h ≡ ok a
      → size_of d (resize_instance_disk id d s ∷ h) ≡ s
  pub refused :
      (d s : ℕ) (h : History) (e : String)
      → client.acts (resize_instance_disk id d s) h ≡ err e
      → size_of d (resize_instance_disk id d s ∷ h) ≡ size_of d h
  pub others :
      (d e s : ℕ) (h : History) → d ≢ e → size_of e (resize_instance_disk id d s ∷ h) ≡ size_of e h
  pub kept : (c : Call) (d : ℕ) (h : History) → IsHarmless c → size_of d (c ∷ h) ≡ size_of d h

module _ (client : Client) (i : Instance) (size_of : ℕ → History → ℕ)
    (semantics : SizeSemantics client i.id size_of) (x y limit : ℕ) (apart : x ≢ y) where
  -- The two disks together stay within the limit.
  abbrev pub Within : Call → History → Type 0
  Within c h = size_of x (c ∷ h) + size_of y (c ∷ h) ≤ limit

  abbrev pub Sizes : ℕ → ℕ → History → Type 0
  Sizes a b h = (size_of x h ≡ a) × (size_of y h ≡ b)

  abbrev pub Still : ℕ → ℕ → History → Type 0
  Still a b h = Sizes a b h × Every Within h

  -- A run that succeeds leaves these sizes, and no run exceeds the limit.
  abbrev pub Reaches : {A : Type 0} → ℕ → ℕ → Result String A × History → Type 0
  Reaches a b (ok v, h) = Still a b h
  Reaches a b (err e, h) = Every Within h

  pub step :
      (a b : ℕ) (c : Call) (h : History)
      → a + b ≤ limit
      → IsHarmless c
      → Still a b h
      → Still a b (c ∷ h)
  step a b c h fits safe still =
      let e = semantics.kept c x h safe ∙ still.0.0 in
      let f = semantics.kept c y h safe ∙ still.0.1 in ((e, f), (rw (e, f) fits, still.1))

  pub Reaches-next :
      {A B : Type 0} (a b : ℕ) (message : String) (answer : Result String A) (f : A → Run B)
      (h : History)
      → Every Within h
      → ((v : A) → answer ≡ ok v → Reaches a b (f v h))
      → Reaches a b (after f (explained message (answer, h)))
  unfolding after explained
  Reaches-next a b message (ok v) f h kept next = next v refl
  Reaches-next a b message (err e) f h kept next = kept

  Reaches-call :
      {A B : Type 0} (a b : ℕ) (answer : Result String A) (f : A → Run B) (h : History)
      → Every Within h
      → ((v : A) → answer ≡ ok v → Reaches a b (f v h))
      → Reaches a b (after f (answer, h))
  unfolding after
  Reaches-call a b (ok v) f h kept next = next v refl
  Reaches-call a b (err e) f h kept next = kept

  Reaches-after :
      {A B : Type 0} (a b c d : ℕ) (f : A → Run B) (r : Result String A × History)
      → Reaches a b r
      → ((v : A) (h : History) → Still a b h → Reaches c d (f v h))
      → Reaches c d (after f r)
  unfolding after
  Reaches-after a b c d f (ok v, h) still next = next v h still
  Reaches-after a b c d f (err e, h) kept next = kept

  answer-Reaches :
      {A : Type 0} {a b : ℕ} (answer : Result String A) (h : History)
      → Still a b h
      → Reaches a b (answer, h)
  answer-Reaches (ok v) h still = still
  answer-Reaches (err e) h still = still.1

  -- What a resize does to the two sizes.
  abbrev Moves : ℕ → ℕ → ℕ → ℕ → ℕ → ℕ → Type 0
  Moves d s a b a' b' =
      (h : History)
      → Sizes a b h
      → ((v : Ack)
          → client.acts (resize_instance_disk i.id d s) h ≡ ok v
          → Sizes a' b' (resize_instance_disk i.id d s ∷ h))
        × ((e : String)
            → client.acts (resize_instance_disk i.id d s) h ≡ err e
            → Sizes a b (resize_instance_disk i.id d s ∷ h))

  Moves-first : (a b s : ℕ) → Moves x s a b s b
  Moves-first a b s h sizes = (
    (λ v e. (semantics.resized x s h v e, semantics.others x y s h apart ∙ sizes.1)),
    (λ m e. (semantics.refused x s h m e ∙ sizes.0, semantics.others x y s h apart ∙ sizes.1)),
  )

  Moves-second : (a b s : ℕ) → Moves y s a b a s
  Moves-second a b s h sizes = (
    (λ v e. (semantics.others y x s h (λ f. apart (sym f)) ∙ sizes.0, semantics.resized y s h v e)),
    (λ m e. (
      semantics.others y x s h (λ f. apart (sym f)) ∙ sizes.0,
      semantics.refused y s h m e ∙ sizes.1,
    )),
  )

  module _ (disk : Disk) (s a b a' b' : ℕ) (before : a + b ≤ limit) (within : a' + b' ≤ limit)
      (moves : Moves disk.id s a b a' b') where
    fail_if-Reaches :
        (differs : Bool) (h : History) → Still a' b' h → Reaches a' b' (fail_if client differs h)
    fail_if-Reaches true h still = still.1
    fail_if-Reaches false h still = still

    sized : (m n : ℕ) (c : Call) (h : History) → m + n ≤ limit → Sizes m n (c ∷ h) → Within c h
    sized m n c h fits sizes = rw (sizes.0, sizes.1) fits

    accepted-Reaches :
        (h : History)
        → Still a' b' h
        → Reaches a' b' (
            after
              (λ v. confirm_resize client i disk s)
              (explained "Error waiting for resize of Instance Disk: "
                (act client (wait_for_finished i.id disk_resize) h)))
    accepted-Reaches h still =
        let k = step a' b' _ h within tt still in
        Reaches-next a' b' _ _ _ _ k.1 (λ v e.
          let l = step a' b' _ _ within tt k in
          Reaches-next a' b' _ _ _ _ l.1 (λ updated e1. fail_if-Reaches (updated.size != s) _ l))

    sent-Reaches :
        (answer : Result String Ack) (h : History)
        → client.acts (resize_instance_disk i.id disk.id s) h ≡ answer
        → Still a b h
        → Reaches a' b' (
            after
              (λ v. finish_resize client i disk s)
              (explained "Error resizing disk for Instance: "
                (answer, resize_instance_disk i.id disk.id s ∷ h)))
    unfolding after explained
    sent-Reaches (ok v) h e still =
        let sizes = (moves h still.0).0 v e in
        accepted-Reaches _ (sizes, (sized a' b' _ h within sizes, still.1))
    sent-Reaches (err m) h e still =
        let sizes = (moves h still.0).1 m e in (sized a b _ h before sizes, still.1)

    offline-Reaches : (h : History) → Still a b h → Reaches a' b' (resize_offline client i disk s h)
    offline-Reaches h still =
        let k = step a b _ h before tt still in
        Reaches-next a' b' _ _ _ _ k.1 (λ seen e.
          let l = step a b _ _ before tt k in
          Reaches-next a' b' _ _ _ _ l.1 (λ v e1. sent-Reaches _ _ refl l))

    prepare-Reaches :
        (status : Status) (h : History)
        → Still a b h
        → Reaches a b (prepare_resize client i status h)
    prepare-Reaches shutting_down h still =
        let k = step a b _ h before tt still in Reaches-next a b _ _ _ _ k.1 (λ seen e. k)
    prepare-Reaches offline h still = still
    prepare-Reaches running h still = answer-Reaches _ _ (step a b _ h before tt still)
    prepare-Reaches booting h still = answer-Reaches _ _ (step a b _ h before tt still)
    prepare-Reaches rebooting h still = answer-Reaches _ _ (step a b _ h before tt still)
    prepare-Reaches (other status) h still = answer-Reaches _ _ (step a b _ h before tt still)

    within-Reaches :
        (too_large : Bool) (h : History)
        → Still a b h
        → Reaches a' b' (resize_within client too_large i disk s h)
    within-Reaches true h still = still.1
    within-Reaches false h still =
        Reaches-after a b a' b' _ _ (prepare-Reaches i.status h still)
          (λ v k still1. offline-Reaches k still1)

    change-Reaches :
        (h : History) → Still a b h → Reaches a' b' (change_instance_disk_size client i disk s h)
    unfolding change_instance_disk_size
    change-Reaches h still = within-Reaches (ltb i.disk_capacity s) h still

  -- The disk x goes from a to a', and then y from b to b', or the other way round.
  module _ (boot swap : Disk) (a b a' b' : ℕ) (same_x : boot.id ≡ x) (same_y : swap.id ≡ y)
      (before : a + b ≤ limit) (finally : a' + b' ≤ limit) where
    boot_first-Reaches :
        (h : History)
        → a' + b ≤ limit
        → Still a b h
        → Reaches a' b' (resize_each client i ((size a', boot) ∷ (size b', swap) ∷ []) h)
    boot_first-Reaches h between still =
        Reaches-after a' b a' b' _ _
          (change-Reaches boot a' a b a' b before between
            (subst (λ d. Moves d a' a b a' b) (sym same_x) (Moves-first a b a')) h still)
          (λ v k still1.
            Reaches-after a' b' a' b' _ _
              (change-Reaches swap b' a' b a' b' between finally
                (subst (λ d. Moves d b' a' b a' b') (sym same_y) (Moves-second a' b b')) k still1)
              (λ w l still2. still2))

    swap_first-Reaches :
        (h : History)
        → a + b' ≤ limit
        → Still a b h
        → Reaches a' b' (resize_each client i ((size b', swap) ∷ (size a', boot) ∷ []) h)
    swap_first-Reaches h between still =
        Reaches-after a b' a' b' _ _
          (change-Reaches swap b' a b a b' before between
            (subst (λ d. Moves d b' a b a b') (sym same_y) (Moves-second a b b')) h still)
          (λ v k still1.
            Reaches-after a' b' a' b' _ _
              (change-Reaches boot a' a b' a' b' between finally
                (subst (λ d. Moves d a' a b' a' b') (sym same_x) (Moves-first a b' a')) k still1)
              (λ w l still2. still2))

    pub ordered-Reaches :
        (boot_grows : Bool) (h : History)
        → a + b ≡ a' + b'
        → ltb a a' ≡ boot_grows
        → Still a b h
        → Reaches a' b'
            (resize_each client i (in_order boot_grows (size a', boot) (size b', swap)) h)
    ordered-Reaches true h sum e still = swap_first-Reaches h (ground (arith, sum, e, before)) still
    ordered-Reaches false h sum e still =
        boot_first-Reaches h (ground (arith, sum, e, before)) still
