-- ===== src/Instance/Disks/Safety.antt =====
-- Which disks an update may delete.
use terraform_provider_linod.Prelude.Runs.{
  Sure, Sure-step, Sure-last, Every, Kept, Kept-holds, Kept-step, Kept-last, Kept-after, Kept-call,
}
use terraform_provider_linod.Prelude.{
  String, Bool, true, false, not, ◌&&◌, ◌≡◌, refl, Option, some, List, [], ◌∷◌, Result, ok, err,
  any, All, ◌==◌, ==_iff, ==_refl, string_eq, nat_eq, arith, if◌then◌else◌,
}
use mathlib.Core.Path.{subst}
use terraform_provider_linod.Prelude.Dict.{Dict, get, put, has_key}
use terraform_provider_linod.Instance.{
  Instance, Disk, Call, delete_instance_disk, list_instance_disks, Client, History,
}
use terraform_provider_linod.Instance.Disks.{
  DiskSpec, index_disks, disk_specs_by_label, get_instance_disk_spec_diffs, get_instance_disks,
}
use terraform_provider_linod.Instance.Disks.Update.{update_instance_disks}
use terraform_provider_linod.Instance.Disks.Calls.{MayDelete, IsHarmless, apply_diffs-Kept}
use terraform_provider_linod.Prelude.Alls.{All-map, any_imp, All-self, All-put}
use terraform_provider_linod.Instance.Disks.Labels.{is_named, removed_labels}

-- A deletion is of this instance's disk that was listed under a label of the old specs which the new
-- specs do not have; other calls are not judged.
abbrev pub DeleteAllowed : Instance → List Disk → List DiskSpec → List DiskSpec → Call → Type 0
DeleteAllowed i listed old new (delete_instance_disk n d) =
    (n ≡ i.id)
    × (any (λ disk. disk.id == d && is_named disk.label old && not (is_named disk.label new)) listed
        ≡ true)
DeleteAllowed i listed old new _ = Unit

module _ (i : Instance) (listed : List Disk) (old new : List DiskSpec) where
  -- What an entry of the index says of the list.
  abbrev IsListed : String × Disk → Type 0
  IsListed e = any (λ d. d.id == e.1.id && d.label == e.0) listed ≡ true

  if_err :
      (b : Bool) (e : String) (r : Result String (Dict String Disk)) (m : Dict String Disk)
      → (if b then err e else r) ≡ ok m
      → r ≡ ok m
  if_err true e r m h = cc
  if_err false e r m h = h

  All-index :
      (disks : List Disk) (m m' : Dict String Disk)
      → All (λ d. IsListed (d.label, d)) disks
      → All IsListed m
      → index_disks disks m ≡ ok m'
      → All IsListed m'
  unfolding index_disks
  All-index [] m m' hd hm e = let same : m ≡ m' = cc in subst (All IsListed) same hm
  All-index (d ∷ disks) m m' hd hm e =
      All-index disks (put d.label d m) m' hd.1 (All-put IsListed d.label d m hd.0 hm)
        (if_err (has_key d.label m) _ _ m' e)

  abbrev Allowed : Call → History → Type 0
  Allowed c h = DeleteAllowed i listed old new c

  harmless : (c : Call) (h : History) → IsHarmless c → Allowed c h
  harmless (delete_instance_disk n d) h safe = absurd safe
  harmless _ h safe = tt

  allowed_disk :
      (client : Client) (label : String) (disk : Disk)
      → IsListed (label, disk)
      → is_named label old ≡ true
      → is_named label new ≡ false
      → MayDelete client Allowed harmless i (some disk)
  allowed_disk client label disk found o n h = (
    refl,
    any_imp (λ d. d.id == disk.id && d.label == label) _ listed
        (λ d e.
          let same : d.label ≡ label = ground (arith, ==_iff d.label label) in
          rw (same, o, n) (ground arith))
        found,
  )

  allowed_if :
      (client : Client) (same : Bool) (found rest : Option Disk)
      → (same ≡ true → MayDelete client Allowed harmless i found)
      → MayDelete client Allowed harmless i rest
      → MayDelete client Allowed harmless i (if same then found else rest)
  allowed_if client true found rest may all = may refl
  allowed_if client false found rest may all = all

  allowed_found :
      (client : Client) (label : String) (m : Dict String Disk)
      → All IsListed m
      → is_named label old ≡ true
      → is_named label new ≡ false
      → MayDelete client Allowed harmless i (get label m)
  unfolding get
  allowed_found client label [] all o n = tt
  allowed_found client label ((l, d) ∷ m) all o n =
      allowed_if client (l == label) (some d) (get label m)
        (λ e.
          let same : l ≡ label = (==_iff l label).0 e in
          allowed_disk client label d (subst (λ k. IsListed (k, d)) same all.0) o n)
        (allowed_found client label m all.1 o n)

  abbrev Indexed : Dict String Disk → History → Type 0
  Indexed disks h = All IsListed disks

  disks-Kept :
      (client : Client) (h : History)
      → Every Allowed h
      → Kept Allowed (get_instance_disks client i.id h)
  unfolding get_instance_disks
  disks-Kept client h kept =
      Kept-step _ _ _ _ _ (harmless (list_instance_disks i.id) h tt, kept)
        (λ disks e k1. Kept-last _ _ _ k1)

  disks-Indexed :
      (client : Client) (h : History)
      → client.answers_disks (list_instance_disks i.id) h ≡ ok listed
      → Sure Indexed (get_instance_disks client i.id h)
  unfolding get_instance_disks
  disks-Indexed client h answered = Sure-step _ _ _ _ _ (λ disks e.
      let same : disks ≡ listed = cc in
      Sure-last _ _ _ (λ m e'.
        All-index disks [] m
          (rw same (
            All-self (λ d d'. d'.id == d.id && d'.label == d.label) listed
              (λ d. ground (arith, ==_refl d.id, ==_refl d.label))))
          tt e'))

  update-Kept :
      (client : Client) (random : Result String String) (h : History)
      → client.answers_disks (list_instance_disks i.id) h ≡ ok listed
      → Every Allowed h
      → Kept Allowed (update_instance_disks client random i old new h)
  unfolding update_instance_disks
  update-Kept client random h answered kept =
      Kept-after _ Indexed _ _ (disks-Kept client h kept) (disks-Indexed client h answered)
        (λ disks h1 k1 all. Kept-call _ _ _ _ k1 (λ a e k2.
          apply_diffs-Kept client Allowed harmless i random disks
            (get_instance_disk_spec_diffs (disk_specs_by_label old []) (disk_specs_by_label new []))
            h1 (λ o k. tt) (λ d s h' seen fits off. tt)
            (All-map _ _ _ (λ e l. allowed_found client e.0 disks all l.0 l.1)
              (removed_labels old new))
            k2))

-- If the API lists these disks for the instance, then whatever else it answers and wherever the update
-- fails, every deletion is of this instance and of the identifier of a listed disk, whose label the old
-- specs have and the new specs do not.
pub update_instance_disks_deletes :
    (client : Client) (random : Result String String) (i : Instance) (listed : List Disk)
    (old new : List DiskSpec)
    → client.answers_disks (list_instance_disks i.id) [] ≡ ok listed
    → Every
        (λ c h. DeleteAllowed i listed old new c)
        (update_instance_disks client random i old new []).1
update_instance_disks_deletes client random i listed old new answered =
    Kept-holds _ _ (update-Kept i listed old new client random [] answered tt)
