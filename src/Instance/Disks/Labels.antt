-- ===== src/Instance/Disks/Labels.antt =====
-- The labels that an update removes.
use terraform_provider_linod.Prelude.{
  String, Bool, true, false, ◌||◌, ◌≡◌, refl, List, [], ◌∷◌, any, All, ◌==◌, ==_refl, string_eq,
  nat_eq, arith,
}
use terraform_provider_linod.Prelude.Dict.{Dict, get, put, has_key, get-put}
use terraform_provider_linod.Instance.{Ack}
use terraform_provider_linod.Instance.Disks.{
  DiskSpec, disk_specs_by_label, unplaced, place_new, get_instance_disk_spec_diffs,
}
use terraform_provider_linod.Instance.Disks.Partition.{has_key-placed}
use terraform_provider_linod.Prelude.Alls.{if_All, All-map, All-self, All-put}

abbrev pub is_named : String → List DiskSpec → Bool
is_named label specs = any (λ spec. spec.label == label) specs

All-specs :
    (P : String → Type 0) (specs : List DiskSpec) (m : Dict String DiskSpec)
    → All (λ s. P s.label) specs
    → All (λ e. P e.0) m
    → All (λ e. P e.0) (disk_specs_by_label specs m)
unfolding disk_specs_by_label
All-specs P [] m hs hm = hm
All-specs P (s ∷ specs) m hs hm =
    All-specs P specs (put s.label s m) hs.1 (All-put (λ e. P e.0) s.label s m hs.0 hm)

has_key-specs :
    (label : String) (specs : List DiskSpec) (m : Dict String DiskSpec)
    → has_key label (disk_specs_by_label specs m) ≡ (is_named label specs || has_key label m)
unfolding disk_specs_by_label
has_key-specs label [] m = refl
has_key-specs label (s ∷ specs) m =
    ground (arith, get-put s.label label s m, has_key-specs label specs (put s.label s m))

All-unplaced :
    (P : String → Type 0) (placed : Dict String Ack) (old : Dict String DiskSpec)
    → All (λ e. P e.0) old
    → All (λ e. P e.0 × (has_key e.0 placed ≡ false)) (unplaced placed old)
unfolding unplaced
All-unplaced P placed [] h = tt
All-unplaced P placed ((l, s) ∷ old) h =
    let rest = All-unplaced P placed old h.1 in
    if_All _ (has_key l placed) _ _ rest (λ e. All-put _ l s (unplaced placed old) (h.0, e) rest)

-- What an update deletes is named by the old specs and not by the new.
pub removed_labels :
    (old new : List DiskSpec)
    → All
        (λ e. (is_named e.0 old ≡ true) × (is_named e.0 new ≡ false))
        (get_instance_disk_spec_diffs
          (disk_specs_by_label old [])
          (disk_specs_by_label new [])).removed
unfolding get_instance_disk_spec_diffs get
removed_labels old new =
    let olds = disk_specs_by_label old [] in
    let news = disk_specs_by_label new [] in
    All-map _ _ _
      (λ e h. (h.0, ground (arith, has_key-placed e.0 olds news, has_key-specs e.0 new [])))
      (All-unplaced (λ l. is_named l old ≡ true) (place_new olds news).placed olds
        (All-specs (λ l. is_named l old ≡ true) old []
          (All-self (λ s t. t.label == s.label) old (λ s. ==_refl s.label)) tt))
