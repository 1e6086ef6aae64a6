-- ===== src/Instance/Placement.antt =====
-- reassignPlacementGroup and applyInstanceMigration of linode/instance/helpers.go.
use terraform_provider_linod.Prelude.Runs.{
  done, ◌>>◌, or_fail, Sure, Sure-holds, Sure-done, Sure-explained, Sure-last, Sure-after,
}
use terraform_provider_linod.Prelude.{
  ℕ, String, Bool, true, false, ◌≡◌, ◌≢◌, ◌∙◌, ◌⊎◌, inl, inr, arith, refl, zero, suc, Option,
  Result, ok, err, ◌∷◌, if◌then◌else◌,
}
use terraform_provider_linod.Instance.{
  Instance, Migration, linode_migrate_datacenter, get_instance, new_event_poller, wait_for_finished,
  migrate_instance, unassign_placement_group, assign_placement_group, Client, History, Run, Ack,
  act, ask_instance,
}

module _ (client : Client) where
  unfoldable pub apply_instance_migration : Migration → Instance → String → Run Instance
  apply_instance_migration migration_type i target_region = do
    or_fail "failed to initialize event poller "
        (act client (new_event_poller i.id linode_migrate_datacenter))
    or_fail "failed to migrate instance "
        (act client (migrate_instance i.id target_region migration_type))
    or_fail "failed to wait for instance "
        (act client (wait_for_finished i.id linode_migrate_datacenter))
    or_fail "failed to refresh instance " (ask_instance client (get_instance i.id))

  -- `is_not_found` tells linodego's errors of a missing group.
  module _ (is_not_found : String → Bool) where
    abbrev pub skip_missing : Result String Ack × History → Result String Ack × History
    skip_missing (ok a, h) = (ok a, h)
    skip_missing (err e, h) = (if is_not_found e then ok tt else err e, h)

    -- 0 is no group.
    abbrev pub attempt_unassign : ℕ → ℕ → Run Ack
    attempt_unassign inst_id zero h = done tt h
    attempt_unassign inst_id (suc n) h =
        skip_missing (act client (unassign_placement_group (suc n) inst_id) h)

    abbrev pub attempt_assign : ℕ → ℕ → Option Bool → Run Ack
    attempt_assign inst_id zero compliant_only = done tt
    attempt_assign inst_id (suc n) compliant_only =
        act client (assign_placement_group (suc n) inst_id compliant_only)

    unfoldable pub reassign_placement_group : ℕ → ℕ → ℕ → Option Bool → Run Ack
    reassign_placement_group inst_id old_pg_id new_pg_id compliant_only = do
      or_fail "failed to unassign Linode from Placement Group: "
          (attempt_unassign inst_id old_pg_id)
      or_fail "failed to assign Linode to Placement Group: "
          (attempt_assign inst_id new_pg_id compliant_only)

-- What the code relies on the API for. An assignment joins the group, and an unassignment leaves it. An
-- unassignment from a group that the instance is not in changes nothing, and the API answers one with not
-- found only then. `group_of` is 0 outside any group.
pub record PlacementSemantics (client : Client) (is_not_found : String → Bool) (id : ℕ)
    (group_of : History → ℕ) : Type 0 where
  pub assigned :
      (pg : ℕ) (compliant_only : Option Bool) (h : History) (a : Ack)
      → group_of h ≡ 0
      → client.acts (assign_placement_group pg id compliant_only) h ≡ ok a
      → group_of (assign_placement_group pg id compliant_only ∷ h) ≡ pg
  pub unassigned :
      (pg : ℕ) (h : History) (a : Ack)
      → group_of h ≡ pg
      → client.acts (unassign_placement_group pg id) h ≡ ok a
      → group_of (unassign_placement_group pg id ∷ h) ≡ 0
  pub elsewhere :
      (pg : ℕ) (h : History)
      → group_of h ≢ pg
      → group_of (unassign_placement_group pg id ∷ h) ≡ group_of h
  pub missing :
      (pg : ℕ) (h : History) (e : String)
      → client.acts (unassign_placement_group pg id) h ≡ err e
      → is_not_found e ≡ true
      → group_of h ≢ pg

module _ {client : Client} {is_not_found : String → Bool} {id : ℕ} {group_of : History → ℕ}
    (semantics : PlacementSemantics client is_not_found id group_of) where
  abbrev InGroup : ℕ → Ack → History → Type 0
  InGroup pg a h = group_of h ≡ pg

  skip_leaves :
      (b : Bool) (e : String) (h : History)
      → (b ≡ true → group_of h ≡ 0)
      → Sure (InGroup 0) (if b then ok tt else err e, h)
  unfolding Sure
  skip_leaves true e h left = left refl
  skip_leaves false e h left = tt

  answer_leaves :
      (answer : Result String Ack) (h : History)
      → ((a : Ack) → answer ≡ ok a → group_of h ≡ 0)
      → ((e : String) → answer ≡ err e → is_not_found e ≡ true → group_of h ≡ 0)
      → Sure (InGroup 0) (skip_missing client is_not_found (answer, h))
  answer_leaves (ok a) h gone absent = Sure-done _ _ _ (gone a refl)
  answer_leaves (err e) h gone absent = skip_leaves (is_not_found e) e h (absent e refl)

  -- From no group, or from the group itself, an unassignment leads to no group.
  unassign_leaves :
      (pg : ℕ) (h : History)
      → (group_of h ≡ pg) ⊎ (group_of h ≡ 0)
      → Sure (InGroup 0) (attempt_unassign client is_not_found id pg h)
  unassign_leaves zero h (inl in_group) = Sure-done _ _ _ in_group
  unassign_leaves zero h (inr out) = Sure-done _ _ _ out
  unassign_leaves (suc n) h (inl in_group) =
      answer_leaves _ _ (λ a e. semantics.unassigned (suc n) h a in_group e)
        (λ m e f. absurd (semantics.missing (suc n) h m e f in_group))
  unassign_leaves (suc n) h (inr out) =
      let still : group_of (unassign_placement_group (suc n) id ∷ h) ≡ 0 =
        semantics.elsewhere (suc n) h (λ e. absurd (ground (arith, e, out))) ∙ out in
      answer_leaves _ _ (λ a e. still) (λ m e f. still)

  assign_joins :
      (pg : ℕ) (compliant_only : Option Bool) (h : History)
      → group_of h ≡ 0
      → Sure (InGroup pg) (attempt_assign client is_not_found id pg compliant_only h)
  assign_joins zero compliant_only h out = Sure-done _ _ _ out
  assign_joins (suc n) compliant_only h out =
      Sure-last _ _ _ (λ a e. semantics.assigned (suc n) compliant_only h a out e)

  -- If the API keeps to the semantics of placement groups and the instance is in the old group, or by now
  -- in none, as where the old group was deleted, a reassignment that succeeds leaves it in the new group,
  -- or in none where that is 0.
  pub reassign_placement_group_joins :
      (old new : ℕ) (compliant_only : Option Bool) (h h' : History) (a : Ack)
      → (group_of h ≡ old) ⊎ (group_of h ≡ 0)
      → reassign_placement_group client is_not_found id old new compliant_only h ≡ (ok a, h')
      → group_of h' ≡ new
  unfolding reassign_placement_group
  reassign_placement_group_joins old new compliant_only h h' a start e =
      Sure-holds (InGroup new)
        (Sure-after _ (InGroup 0) _ _ (Sure-explained _ _ _ (unassign_leaves old h start))
          (λ b h1 out. Sure-explained _ _ _ (assign_joins new compliant_only h1 out)))
        e
