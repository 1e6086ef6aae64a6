-- ===== src/Instance/Tests/Placement.antt =====
-- A reassignment of an instance's placement group, at concrete inputs.
use terraform_provider_linod.Prelude.Runs.{after, explained}
use terraform_provider_linod.Prelude.{
  ℕ, String, Bool, true, ◌≡◌, ◌≢◌, refl, inl, some, [], ◌∷◌, Result, ok, err, ◌==◌, ==_iff, nat_eq,
  string_eq, arith, if◌then◌else◌,
}
use terraform_provider_linod.Instance.{
  Call, unassign_placement_group, assign_placement_group, Client, History, Ack,
}
use terraform_provider_linod.Instance.Placement.{
  reassign_placement_group, PlacementSemantics, reassign_placement_group_joins,
}
use terraform_provider_linod.Instance.Tests.{client}

-- The instance starts in a group, or in none.
abbrev group_after : ℕ → History → ℕ
group_after start [] = start
group_after start (assign_placement_group pg n c ∷ h) = pg
group_after start (unassign_placement_group pg n ∷ h) =
    let now = group_after start h in if now == pg then 0 else now
group_after start (_ ∷ h) = group_after start h

abbrev answer_from : ℕ → Call → History → Result String Ack
answer_from start (unassign_placement_group pg n) h =
    if group_after start h == pg then ok tt else err "404"
answer_from start _ h = ok tt

abbrev placing : ℕ → Client
placing start = record client { acts = answer_from start }

abbrev not_found : String → Bool
not_found e = e == "404"

left_group : (now pg : ℕ) → now ≡ pg → (if now == pg then 0 else now) ≡ 0
left_group now pg e = ground (arith, ==_iff now pg, e)

still_there : (now pg : ℕ) → now ≢ pg → (if now == pg then 0 else now) ≡ now
still_there now pg apart = ground (arith, ==_iff now pg, apart)

placement : (start : ℕ) → PlacementSemantics (placing start) not_found 1 (group_after start)
placement start = record {
  assigned = λ pg c h a out e. refl;
  unassigned = λ pg h a in_group e. left_group (group_after start h) pg in_group;
  elsewhere = λ pg h apart. still_there (group_after start h) pg apart;
  missing = λ pg h e f b. λ same. absurd (ground (arith, f, ==_iff (group_after start h) pg, same));
}

run_reassign : ℕ → Result String Ack × History
unfolding reassign_placement_group after explained
run_reassign start = reassign_placement_group (placing start) not_found 1 7 8 (some true) []

-- The old group is gone: its unassignment is answered with not found.
reassigned_from_none : (run_reassign 0).0 ≡ ok tt
unfolding run_reassign
reassigned_from_none = refl

reassign_placement_group_joins_example : group_after 7 (run_reassign 7).1 ≡ 8
unfolding run_reassign
reassign_placement_group_joins_example =
    reassign_placement_group_joins (placement 7) 7 8 (some true) [] (run_reassign 7).1 tt (inl refl)
      refl
