-- ===== src/Instance/Tests/Operation.antt =====
-- The operations of the disk resource, at concrete inputs.
use terraform_provider_linod.Prelude.Runs.{after, explained, Every}
use terraform_provider_linod.Prelude.{ℕ, String, false, ◌≡◌, refl, inl, ◌⊎◌, [], Result, ok}
use terraform_provider_linod.Instance.{History, Ack}
use terraform_provider_linod.Instance.Power.{
  wait_for_instance_non_transient_status, boot_instance_sync, shut_down_instance_sync,
}
use terraform_provider_linod.Instance.Operation.{
  attempt, run_disk_operation, resize_disk, resize_disk_sync, remove_disk, delete_disk_sync,
}
use terraform_provider_linod.Instance.Operation.Power.{OfflineChange, disk_operations_offline}
use terraform_provider_linod.Instance.Operation.Restored.{
  NoDisks, resize_disk_sync_restores, delete_disk_restores,
}
use terraform_provider_linod.Instance.Tests.{client, status_after, semantics}

run_resize : ℕ → Result String Ack × History
unfolding run_disk_operation resize_disk_sync resize_disk remove_disk
    wait_for_instance_non_transient_status boot_instance_sync shut_down_instance_sync after
    explained
run_resize size = resize_disk_sync client false 1 11 size []

disk_operations_offline_example :
    Every (OfflineChange status_after) (resize_disk_sync client false 1 11 30 []).1
    × Every (OfflineChange status_after) (delete_disk_sync client false 1 11 []).1
disk_operations_offline_example = disk_operations_offline semantics false 11 30 [] tt

resize_disk_sync_restores_example :
    (status_after (resize_disk_sync client false 1 11 30 []).1 ≡ status_after [])
    ⊎ NoDisks semantics (resize_disk_sync client false 1 11 30 []).1
unfolding run_resize
resize_disk_sync_restores_example =
    resize_disk_sync_restores semantics false 11 30 [] (resize_disk_sync client false 1 11 30 []).1
      tt (inl refl) refl

delete_disk_restores_example :
    let r = run_disk_operation client false 1 (attempt (remove_disk client 1 11)) [] in
    (status_after r.1 ≡ status_after []) ⊎ NoDisks semantics r.1
unfolding run_resize
delete_disk_restores_example =
    delete_disk_restores semantics false 11 []
      (run_disk_operation client false 1 (attempt (remove_disk client 1 11)) []).1 (ok tt)
      (inl refl) refl
