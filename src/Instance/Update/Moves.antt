-- ===== src/Instance/Update/Moves.antt =====
-- The calls of the changes of group, region and configs in an update of an instance, likewise.
use terraform_provider_linod.Prelude.Runs.{
  Every, Kept, Kept-explained, Kept-last, Kept-step, Kept-call, Kept-then,
}
use terraform_provider_linod.Prelude.{
  ℕ, zero, suc, String, Bool, true, false, Option, none, some, List, [], ◌∷◌, Result, ok, err,
  nat_eq, string_eq, map,
}
use terraform_provider_linod.Prelude.Dict.{Dict, get, has_key}
use terraform_provider_linod.Instance.{
  Instance, InstanceConfig, Migration, Call, get_volume, detach_volume, wait_for_volume_detached,
  list_instance_configs, create_instance_config, update_instance_config, unassign_placement_group,
  assign_placement_group, migrate_instance, Client, History, Ack,
}
use terraform_provider_linod.Instance.Configs.Calls.{IsConfigCall, configs-Kept}
use terraform_provider_linod.Instance.Configs.Options.{ConfigSpec}
use terraform_provider_linod.Instance.Configs.Update.{
  delete_listed, delete_instance_configs, update_instance_configs,
}
use terraform_provider_linod.Instance.Placement.{
  skip_missing, attempt_unassign, attempt_assign, reassign_placement_group,
  apply_instance_migration,
}
use terraform_provider_linod.Instance.Update.Quiet.{IsQuiet}

module _ (client : Client) (P : Call → History → Type 0)
    (quiet : (c : Call) (h : History) → IsQuiet c → P c h) where
  calm : (c : Call) (h : History) → IsQuiet c → Every P h → Every P (c ∷ h)
  calm c h safe kept = (quiet c h safe, kept)

  pub migration-Kept :
      (m : Migration) (i : Instance) (region : String) (h : History)
      → ((k : History) → P (migrate_instance i.id region m) k)
      → Every P h
      → Kept P (apply_instance_migration client m i region h)
  unfolding apply_instance_migration
  migration-Kept m i region h may kept = Kept-step _ _ _ _ _ (calm _ _ tt kept) (λ a e k.
      Kept-step _ _ _ _ _ (may _, k)
        (λ b e1 k1.
          Kept-step _ _ _ _ _ (calm _ _ tt k1)
            (λ c e2 k2. Kept-explained _ _ _ (Kept-last _ _ _ (calm _ _ tt k2)))))

  module _ (is_not_found : String → Bool) where
    skip-Kept :
        (answer : Result String Ack) (h : History)
        → Every P h
        → Kept P (skip_missing client is_not_found (answer, h))
    skip-Kept (ok a) h kept = Kept-last _ _ _ kept
    skip-Kept (err e) h kept = Kept-last _ _ _ kept

    unassign-Kept :
        (n pg : ℕ) (h : History)
        → ((k : History) → P (unassign_placement_group pg n) k)
        → Every P h
        → Kept P (attempt_unassign client is_not_found n pg h)
    unassign-Kept n zero h may kept = Kept-last _ _ _ kept
    unassign-Kept n (suc pg) h may kept = skip-Kept _ _ (may _, kept)

    assign-Kept :
        (n pg : ℕ) (compliant_only : Option Bool) (h : History)
        → ((k : History) → P (assign_placement_group pg n compliant_only) k)
        → Every P h
        → Kept P (attempt_assign client is_not_found n pg compliant_only h)
    assign-Kept n zero compliant_only h may kept = Kept-last _ _ _ kept
    assign-Kept n (suc pg) compliant_only h may kept = Kept-last _ _ _ (may _, kept)

    pub reassign-Kept :
        (n old new : ℕ) (compliant_only : Option Bool) (h : History)
        → ((k : History) → P (unassign_placement_group old n) k)
        → ((k : History) → P (assign_placement_group new n compliant_only) k)
        → Every P h
        → Kept P (reassign_placement_group client is_not_found n old new compliant_only h)
    unfolding reassign_placement_group
    reassign-Kept n old new compliant_only h may_leave may_join kept =
        Kept-then _ _ _ (Kept-explained _ _ _ (unassign-Kept n old h may_leave kept))
          (λ a k k1. Kept-explained _ _ _ (assign-Kept n new compliant_only k may_join k1))

  config_call : (c : Call) (h : History) → IsConfigCall c → P c h
  config_call (get_volume v) h safe = quiet _ h tt
  config_call (detach_volume v) h safe = quiet _ h tt
  config_call (wait_for_volume_detached v) h safe = quiet _ h tt
  config_call (list_instance_configs n) h safe = quiet _ h tt
  config_call (create_instance_config n options) h safe = quiet _ h tt
  config_call (update_instance_config n c options) h safe = quiet _ h tt
  config_call _ h safe = absurd safe

  delete_listed-Kept :
      (id : ℕ) (label : String) (needed : Bool) (listed : Option InstanceConfig)
      (ids : Dict String ℕ) (h : History)
      → Every P h
      → Kept P (delete_listed client id label needed listed ids h)
  delete_listed-Kept id label true listed ids h kept = Kept-last _ _ _ kept
  delete_listed-Kept id label false none ids h kept = Kept-last _ _ _ kept
  delete_listed-Kept id label false (some config) ids h kept =
      Kept-call _ _ _ _ (calm _ _ tt kept) (λ a e k. Kept-last _ _ _ k)

  deletes-Kept :
      (id : ℕ) (labels : List String) (ids : Dict String ℕ) (m : Dict String InstanceConfig)
      (h : History)
      → Every P h
      → Kept P (delete_instance_configs client id labels ids m h)
  unfolding delete_instance_configs
  deletes-Kept id [] ids m h kept = Kept-last _ _ _ kept
  deletes-Kept id (l ∷ labels) ids m h kept =
      Kept-then _ _ _ (delete_listed-Kept id l (has_key l ids) (get l m) ids h kept)
        (λ left k k1. deletes-Kept id labels left m k k1)

  pub update_configs-Kept :
      (schedule : History → List ℕ → List ℕ) (id : ℕ) (resource_id : Result String ℕ)
      (old new : List ConfigSpec) (labels : Dict String ℕ) (boot : String) (h : History)
      → Every P h
      → Kept P (update_instance_configs client schedule id resource_id old new labels boot h)
  unfolding update_instance_configs
  update_configs-Kept schedule id resource_id old new labels boot h kept =
      Kept-step _ _ _ _ _ (calm _ _ tt kept) (λ configs e k1. Kept-call _ _ _ _ k1 (λ m e1 k2.
        Kept-then _ _ _
          (configs-Kept client P config_call id schedule resource_id labels boot m new _ _ k2)
          (λ updates h1 k3.
            Kept-then _ _ _
              (deletes-Kept id (map (λ (c : ConfigSpec). c.label) old) updates.updated_config_map m
                h1 k3)
              (λ ids h2 k4. Kept-last _ _ _ k4))))
