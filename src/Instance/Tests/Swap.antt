-- ===== src/Instance/Tests/Swap.antt =====
-- An adjustment of the swap size, at concrete inputs.
use terraform_provider_linod.Prelude.Runs.{Every, Sure, after, explained}
use terraform_provider_linod.Prelude.{
  ℕ, ◌+◌, ◌≤◌, true, ◌≡◌, refl, some, [], ◌∷◌, ok, err, ◌==◌, nat_eq, if◌then◌else◌, arith,
}
use terraform_provider_linod.Instance.{
  Call, wait_for_instance_disk_ready, resize_instance_disk, running, Client, History,
}
use terraform_provider_linod.Instance.Disks.{change_instance_disk_size}
use terraform_provider_linod.Instance.Disks.Calls.{IsHarmless}
use terraform_provider_linod.Instance.Swap.{
  Change, find_disk_by_fs, new_boot_disk_size, grows, adjust_swap_size_if_needed,
}
use terraform_provider_linod.Instance.Swap.Fits.{SizeSemantics}
use terraform_provider_linod.Instance.Swap.Adjusted.{adjust_swap_size_if_needed_fits}
use terraform_provider_linod.Instance.Tests.{client, instance_in, boot_disk, swap_disk, disks}

abbrev size_of : ℕ → History → ℕ
size_of d [] = if d == 11 then 20 else 5
size_of d (resize_instance_disk n e s ∷ h) = if e == d then s else size_of d h
size_of d (_ ∷ h) = size_of d h

-- The API answers with the sizes that it was sent.
abbrev sized_client : Client
sized_client = record client {
  answers_disk = λ c h. elim c [
    | wait_for_instance_disk_ready n d ↦
        ok (record { id = d; label = ""; size = size_of d h; filesystem = "" })
    | _ ↦ err "no disk"
  ];
}

sizes_kept : (c : Call) (d : ℕ) (h : History) → IsHarmless c → size_of d (c ∷ h) ≡ size_of d h
sizes_kept (resize_instance_disk n e s) d h safe = absurd safe
sizes_kept _ d h safe = refl

semantics : SizeSemantics sized_client 1 size_of
semantics = record {
  resized = λ d s h a e. ground arith;
  refused = λ d s h m e. cc;
  others = λ d e s h apart. ground (arith, apart);
  kept = sizes_kept;
}

abbrev three_more : Change ℕ
three_more = record { old = 5; new = 8; has_change = true }

listed_boot : find_disk_by_fs disks "ext4" ≡ some boot_disk
unfolding find_disk_by_fs
listed_boot = refl

listed_swap : find_disk_by_fs disks "swap" ≡ some swap_disk
unfolding find_disk_by_fs
listed_swap = refl

-- The boot disk shrinks first.
adjusted :
    adjust_swap_size_if_needed sized_client (instance_in running) three_more []
    ≡ (ok true, (adjust_swap_size_if_needed sized_client (instance_in running) three_more []).1)
unfolding adjust_swap_size_if_needed find_disk_by_fs new_boot_disk_size grows
    change_instance_disk_size after explained
adjusted = refl

adjust_swap_size_if_needed_fits_example :
    let r = adjust_swap_size_if_needed sized_client (instance_in running) three_more [] in
    Every (λ c h. size_of 11 (c ∷ h) + size_of 12 (c ∷ h) ≤ 25) r.1
    × Sure (λ v k. (size_of 12 k ≡ 8) × (size_of 11 k + size_of 12 k ≡ 25)) r
adjust_swap_size_if_needed_fits_example =
    adjust_swap_size_if_needed_fits sized_client (instance_in running) size_of three_more disks
      boot_disk swap_disk semantics refl listed_boot listed_swap (ground arith) refl refl refl refl
      (omega arith)
