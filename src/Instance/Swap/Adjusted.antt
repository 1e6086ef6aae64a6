-- ===== src/Instance/Swap/Adjusted.antt =====
-- An adjustment of the swap size gives the boot disk what it takes from the swap disk.
use terraform_provider_linod.Prelude.Runs.{Every, Sure, Sure-done, Sure-fail, after, explained}
use terraform_provider_linod.Prelude.{
  ℕ, ◌+◌, ◌-◌, ◌≤◌, String, true, ◌≡◌, ◌≢◌, refl, sym, leb, some, List, [], ◌∷◌, Result, ok, err,
  arith,
}
use terraform_provider_linod.Instance.{Instance, Disk, list_instance_disks, Client, History}
use terraform_provider_linod.Instance.Swap.{
  find_disk_by_fs, new_boot_disk_size, grows, Change, resize_both, adjust_swap_size_if_needed,
}
use terraform_provider_linod.Instance.Swap.Fits.{
  SizeSemantics, Still, Reaches, step, ordered-Reaches,
}

module _ (client : Client) (i : Instance) (size_of : ℕ → History → ℕ)
    (semantics : SizeSemantics client i.id size_of) (boot swap : Disk) (old new : ℕ)
    (apart : boot.id ≢ swap.id) where
  abbrev Goal : {A : Type 0} → Result String A × History → Type 0
  Goal r =
      Reaches client i size_of semantics boot.id swap.id (boot.size + swap.size) apart
        (boot.size + swap.size - new) new r

  both-Reaches :
      (target_small : leb new (boot.size + old) ≡ true) (h : History)
      → swap.size ≡ old
      → Still client i size_of semantics boot.id swap.id
          (boot.size + swap.size)
          apart
          boot.size
          swap.size
          h
      → Goal (resize_both client i old new (some boot) (some swap) h)
  unfolding new_boot_disk_size grows
  both-Reaches fits h same still =
      rw (fits, sym same)
        (ordered-Reaches client i size_of semantics boot.id swap.id (boot.size + swap.size) apart
          boot swap boot.size swap.size (boot.size + swap.size - new) new refl refl (omega arith)
          (ground arith) _ h (ground arith) refl still)

  ok_inj :
      (found disks : List Disk)
      → ◌≡◌ {A = Result String (List Disk)} (ok found) (ok disks)
      → found ≡ disks
  ok_inj found disks e = cc

  sum_of :
      (k : History)
      → new ≤ boot.size + swap.size
      → size_of boot.id k ≡ boot.size + swap.size - new
      → size_of swap.id k ≡ new
      → size_of boot.id k + size_of swap.id k ≡ boot.size + swap.size
  sum_of k fits e f = omega (arith, fits, e, f)

  listed-Goal :
      (answer : Result String (List Disk)) (disks : List Disk) (h : History)
      → leb new (boot.size + old) ≡ true
      → swap.size ≡ old
      → answer ≡ ok disks
      → find_disk_by_fs disks "ext4" ≡ some boot
      → find_disk_by_fs disks "swap" ≡ some swap
      → Still client i size_of semantics boot.id swap.id
          (boot.size + swap.size)
          apart
          boot.size
          swap.size
          h
      → Goal (
          after
            (λ found.
              resize_both client i old new
                (find_disk_by_fs found "ext4")
                (find_disk_by_fs found "swap"))
            (explained "Error getting instance managed disks: " (answer, h)))
  unfolding after explained
  listed-Goal (ok found) disks h small same e f g still =
      let e' = ok_inj found disks e in rw (e', f, g) (both-Reaches small h same still)
  listed-Goal (err m) disks h small same e f g still = cc

  Goal-parts :
      {A : Type 0} (r : Result String A × History)
      → new ≤ boot.size + swap.size
      → Goal r
      → Every (λ c h. size_of boot.id (c ∷ h) + size_of swap.id (c ∷ h) ≤ boot.size + swap.size) r.1
        × Sure
            (λ v k.
              (size_of swap.id k ≡ new)
              × (size_of boot.id k + size_of swap.id k ≡ boot.size + swap.size))
            r
  Goal-parts (ok v, k) fits still =
      (still.1, Sure-done _ _ _ (still.0.1, sum_of k fits still.0.0 still.0.1))
  Goal-parts (err e, k) fits kept = (kept, Sure-fail _ _ _)

-- If a swap size changes from that of the swap disk to one that both disks together can hold, the API lists
-- a boot and a swap disk, with their sizes and of different identifiers, and keeps to the semantics of
-- sizes, then the two disks never have more together than before, wherever the adjustment fails, and if
-- it succeeds they have as much as before and the swap disk has the new size.
pub adjust_swap_size_if_needed_fits :
    (client : Client) (i : Instance) (size_of : ℕ → History → ℕ) (swap_size : Change ℕ)
    (disks : List Disk) (boot swap : Disk)
    → SizeSemantics client i.id size_of
    → client.answers_disks (list_instance_disks i.id) [] ≡ ok disks
    → find_disk_by_fs disks "ext4" ≡ some boot
    → find_disk_by_fs disks "swap" ≡ some swap
    → boot.id ≢ swap.id
    → size_of boot.id [] ≡ boot.size
    → size_of swap.id [] ≡ swap.size
    → swap_size.has_change ≡ true
    → swap.size ≡ swap_size.old
    → swap_size.new ≤ boot.size + swap_size.old
    → let r = adjust_swap_size_if_needed client i swap_size [] in
      Every (λ c h. size_of boot.id (c ∷ h) + size_of swap.id (c ∷ h) ≤ boot.size + swap.size) r.1
      × Sure
          (λ v k.
            (size_of swap.id k ≡ swap_size.new)
            × (size_of boot.id k + size_of swap.id k ≡ boot.size + swap.size))
          r
unfolding adjust_swap_size_if_needed
adjust_swap_size_if_needed_fits client i size_of swap_size disks boot swap semantics e f g apart
      start_boot start_swap changed same fits =
    rw changed (
      Goal-parts client i size_of semantics boot swap swap_size.old swap_size.new apart _
        (ground (arith, same, fits))
        (listed-Goal client i size_of semantics boot swap swap_size.old swap_size.new apart _ disks
          _ (ground (arith, fits)) same e f g
          (step client i size_of semantics boot.id swap.id (boot.size + swap.size) apart boot.size
            swap.size (list_instance_disks i.id) [] (omega arith) tt
            ((start_boot, start_swap), tt))))
