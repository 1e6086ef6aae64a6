-- ===== src/Instance/Disks/Partition.antt =====
-- What getInstanceDiskSpecDiffs puts where.
use terraform_provider_linod.Prelude.{
  String, ◌≡◌, refl, none, [], ◌∷◌, ==_iff, string_eq, arith, if◌then◌else◌,
}
use terraform_provider_linod.Prelude.Dict.{Dict, get, has_key, get-put}
use terraform_provider_linod.Instance.{Ack}
use terraform_provider_linod.Instance.Disks.{
  DiskSpec, place_new, unplaced, get_instance_disk_spec_diffs,
}

get_added :
    (k : String) (old new : Dict String DiskSpec)
    → get k (place_new old new).added ≡ (if has_key k old then none else get k new)
unfolding place_new get
get_added k old [] = ground arith
get_added k old ((l, s) ∷ new) =
    ground (arith, ==_iff l k, get-put l k s (place_new old new).added, get_added k old new)

get_existing :
    (k : String) (old new : Dict String DiskSpec)
    → get k (place_new old new).existing ≡ (if has_key k old then get k new else none)
unfolding place_new get
get_existing k old [] = ground arith
get_existing k old ((l, s) ∷ new) =
    ground (arith, ==_iff l k, get-put l k s (place_new old new).existing, get_existing k old new)

pub has_key-placed :
    (k : String) (old new : Dict String DiskSpec)
    → has_key k (place_new old new).placed ≡ has_key k new
unfolding place_new get
has_key-placed k old [] = refl
has_key-placed k old ((l, s) ∷ new) =
    ground (arith, ==_iff l k, get-put l k tt (place_new old new).placed, has_key-placed k old new)

get_removed :
    (k : String) (placed : Dict String Ack) (old : Dict String DiskSpec)
    → get k (unplaced placed old) ≡ (if has_key k placed then none else get k old)
unfolding unplaced get
get_removed k placed [] = ground arith
get_removed k placed ((l, s) ∷ old) =
    ground (arith, ==_iff l k, get-put l k s (unplaced placed old), get_removed k placed old)

-- For every label: it is added where only the new specs have it, existing, with its new spec, where both
-- have it, and removed where only the old specs have it.
pub get_instance_disk_spec_diffs_parts :
    (old new : Dict String DiskSpec) (k : String)
    → let diffs = get_instance_disk_spec_diffs old new in
      (get k diffs.added ≡ (if has_key k old then none else get k new))
      × (get k diffs.existing ≡ (if has_key k old then get k new else none))
      × (get k diffs.removed ≡ (if has_key k new then none else get k old))
unfolding get_instance_disk_spec_diffs
get_instance_disk_spec_diffs_parts old new k = (
  get_added k old new,
  get_existing k old new,
  rw (get_removed k (place_new old new).placed old, has_key-placed k old new) refl,
)
