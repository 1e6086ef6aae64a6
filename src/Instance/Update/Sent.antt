-- ===== src/Instance/Update/Sent.antt =====
-- An update of an instance sends what the configuration changes, and nothing else.
use terraform_provider_linod.Prelude.Runs.{
  fail, after, or_fail, ◌>>=◌, Every, Kept, Kept-holds, Kept-explained, Kept-last, Kept-step,
  Kept-call, Kept-then, Kept-after, Sure-explained,
}
use terraform_provider_linod.Prelude.{
  ℕ, String, Bool, true, false, not, ◌&&◌, ◌≡◌, ◌≢◌, inl, inr, ==_iff, refl, ◌<◌, ltb, is_empty,
  Option, none, some, List, [], Result, ok, err, ◌!=◌, nat_eq, string_eq, if◌then◌else◌, arith,
}
use terraform_provider_linod.Prelude.Dict.{Dict}
use terraform_provider_linod.Instance.{
  is_running, LinodeType, Instance, InterfaceOptions, Call, History, Ack,
}
use terraform_provider_linod.Instance.Disks.{get_instance_disks}
use terraform_provider_linod.Instance.Update.{
  ResourceData, Provider, is_simple_update, should_reboot,
}
use terraform_provider_linod.Instance.Update.Handler.{
  is_null, refresh_if, migrate, get_instance_type_change, change_type,
  get_instance_disk_label_id_map, labels_or_fail, replace_interfaces, change_interfaces, reboot,
  read_found, read_after, read_resource, update_configs_and_boot, update_disks, update_resource,
}
use terraform_provider_linod.Instance.Update.Quiet.{
  boot-Kept, handle_booted-Kept, vpc_shutdown-Kept,
}
use terraform_provider_linod.Instance.Update.Moves.{
  migration-Kept, reassign-Kept, update_configs-Kept,
}
use terraform_provider_linod.Instance.Update.Justified.{
  ChangesType, IsOldType, IsNewType, interfaces_change, turned_off, simple_options-Tells, Justified,
  P, quiet, run_if-Kept, refresh_if-Kept, backups-Kept, private_ip-Kept, types-Kept, types-Sure,
  type-Kept,
}
use terraform_provider_linod.Instance.Update.Explicit.{change_disks-Kept, swap-Kept}

grows-ChangesType :
    (old new : LinodeType) → ltb old.disk_capacity new.disk_capacity ≡ true → ChangesType old new
grows-ChangesType old new e = inl (ground (arith, e))

other-ChangesType :
    (old new : LinodeType) (more : Bool) → (old.id != new.id && more) ≡ true → ChangesType old new
other-ChangesType old new more e = inr (ground (arith, e, ==_iff old.id new.id))

null_not_off :
    (booted : Option Bool) (off up : Bool)
    → (is_null booted && off && up) ≡ true
    → booted ≢ some false
null_not_off none off up e = λ f. cc
null_not_off (some b) off up e = absurd (ground (arith, e))

on_not_off : (booted : Option Bool) → booted ≡ some true → booted ≢ some false
on_not_off booted e = λ off. cc

MayReboot : Option Bool → Bool → ℕ → Type 0
MayReboot booted skip config = (skip ≡ false) × (booted ≢ some false) × (0 < config)

reboot_allowed :
    (booted : Option Bool) (skip wanted labels configs : Bool) (config : ℕ)
    → (should_reboot booted skip wanted && labels && configs && ltb 0 config) ≡ true
    → MayReboot booted skip config
unfolding should_reboot MayReboot
reboot_allowed (some false) skip wanted labels configs config e = absurd (ground (arith, e))
reboot_allowed (some true) skip wanted labels configs config e =
    (ground (arith, e), λ off. cc, ground (arith, e))
reboot_allowed none skip wanted labels configs config e =
    (ground (arith, e), λ off. cc, ground (arith, e))

module _ (p : Provider) (d : ResourceData) where
  abbrev Q : Call → History → Type 0
  Q c h = P p d c h

  labels-Kept : (n : ℕ) (h : History) → Every Q h → Kept Q (get_instance_disk_label_id_map p d n h)
  unfolding get_instance_disk_label_id_map get_instance_disks
  labels-Kept n h kept =
      Kept-then _ _ _ (Kept-step _ _ _ _ _ (tt, kept) (λ disks e k. Kept-last _ _ _ k))
        (λ disks h1 k1. Kept-last _ _ _ k1)

  labels_or_fail-Kept :
      (r : Result String (Dict String ℕ) × History) → Kept Q r → Kept Q (labels_or_fail p r)
  unfolding Kept
  labels_or_fail-Kept (ok labels, h) kept = kept
  labels_or_fail-Kept (err e, h) kept = kept

  replace-Kept :
      (id boot_config : ℕ) (off : Bool) (interfaces : List InterfaceOptions) (h : History)
      → d.interface.has_change ≡ true
      → Every Q h
      → Kept Q (replace_interfaces p d id boot_config off interfaces h)
  replace-Kept id boot_config off interfaces h changes kept =
      Kept-step _ _ _ _ _ (tt, kept)
        (λ i e k.
          Kept-then _ _ _
            (run_if-Kept p d off _ _ k (λ f.
              vpc_shutdown-Kept p.client Q (quiet p d) p.skip_implicit_reboots id _
                (λ l e. interfaces_change changes e) k))
            (λ a h1 k1.
              Kept-step _ _ _ _ _ (tt, k1)
                (λ c e1 k2.
                  Kept-then _ _ _
                    (run_if-Kept p d (is_null d.booted && off && is_running i.status) _ _ k2 (λ f.
                      Kept-explained _ _ _ (
                        boot-Kept p.client Q (quiet p d) id boot_config _
                          (λ k. null_not_off d.booted off (is_running i.status) f) k2)))
                    (λ b h2 k3. Kept-last _ _ _ k3))))

  interfaces-Kept :
      (changed : Bool) (id boot_config : ℕ) (reboot : Bool) (h : History)
      → d.interface.has_change ≡ changed
      → Every Q h
      → Kept Q (change_interfaces p changed d id boot_config reboot h)
  interfaces-Kept false id boot_config reboot h e kept = Kept-last _ _ _ kept
  interfaces-Kept true id boot_config reboot h changes kept =
      Kept-step _ _ _ _ _ (tt, kept) (λ config e k. replace-Kept id boot_config _ _ _ changes k)

  reboot-Kept :
      (id n config : ℕ) (h : History)
      → MayReboot d.booted p.skip_implicit_reboots config
      → Every Q h
      → Kept Q (reboot p id n config h)
  unfolding MayReboot
  reboot-Kept id n config h may kept =
      Kept-step _ _ _ _ _ (tt, kept)
        (λ a e k.
          Kept-step _ _ _ _ _ (may, k)
            (λ b e1 k1.
              Kept-step _ _ _ _ _ (tt, k1)
                (λ c e2 k2. Kept-step _ _ _ _ _ (tt, k2) (λ o e3 k3. Kept-last _ _ _ k3))))

  found-Kept : (id : ℕ) (h : History) → Every Q h → Kept Q (read_found p id h)
  found-Kept id h kept =
      Kept-step _ _ _ _ _ (tt, kept)
        (λ a e k.
          Kept-step _ _ _ _ _ (tt, k)
            (λ b e1 k1. Kept-step _ _ _ _ _ (tt, k1) (λ c e2 k2. Kept-last _ _ _ k2)))

  missing-Kept :
      (missing : Bool) (e : String) (h : History)
      → Every Q h
      → Kept {A = Ack} Q (if missing then (ok tt, h) else fail "failed to get instance: " h)
  missing-Kept true e h kept = Kept-last _ _ _ kept
  missing-Kept false e h kept = Kept-last _ _ _ kept

  after-Kept :
      (id : ℕ) (answer : Result String Instance) (h : History)
      → Every Q h
      → Kept Q (read_after p (answer, h) id)
  after-Kept id (ok i) h kept = found-Kept id h kept
  after-Kept id (err e) h kept = missing-Kept (p.is_not_found e) e h kept

  read-Kept : (id : ℕ) (h : History) → Every Q h → Kept Q (read_resource p id h)
  unfolding read_resource
  read-Kept id h kept = after-Kept id _ _ (tt, kept)

  boot_phase-Kept :
      (id : ℕ) (i : Instance) (wanted : Bool) (h : History)
      → Every Q h
      → Kept Q (update_configs_and_boot p d id i wanted h)
  boot_phase-Kept id i wanted h kept =
      Kept-then _ _ _ (labels_or_fail-Kept _ (labels-Kept i.id h kept)) (λ labels h1 k1.
        Kept-then _ _ _
          (update_configs-Kept p.client Q (quiet p d) p.schedule i.id d.id d.config.old d.config.new
            labels d.boot_config_label h1 k1)
          (λ updated h2 k2. Kept-call _ _ _ _ k2 (λ boot_config e k3.
            Kept-then _ _ _ (interfaces-Kept d.interface.has_change id boot_config _ _ refl k3)
              (λ reboots h4 k4.
                Kept-then _ _ _
                  (run_if-Kept p d d.shared_ipv4.has_change _ _ k4
                    (λ f. Kept-explained _ _ _ (Kept-last _ _ _ ((f, refl), k4))))
                  (λ a h5 k5.
                    Kept-then _ _ _
                      (run_if-Kept p d
                        (should_reboot d.booted p.skip_implicit_reboots reboots
                          && not (is_empty labels)
                          && not (is_empty updated.1.0)
                          && ltb 0 boot_config)
                        _ _ k5
                        (λ f.
                          reboot-Kept id i.id boot_config _
                            (reboot_allowed d.booted p.skip_implicit_reboots reboots _ _ boot_config
                              f)
                            k5))
                      (λ b h6 k6.
                        Kept-then _ _ _
                          (Kept-explained _ _ _ (
                            handle_booted-Kept p.client Q (quiet p d) d.booted i.id boot_config h6
                              (λ k f. on_not_off d.booted f) (λ k f. turned_off f) k6))
                          (λ c h7 k7. read-Kept id h7 k7)))))))

  disk_phase-Kept :
      (id : ℕ) (i : Instance) (wanted : Bool) (specs : LinodeType × LinodeType) (h : History)
      → IsOldType p d specs.0 × IsNewType p d specs.1
      → Every Q h
      → Kept Q (update_disks p d id i wanted specs h)
  disk_phase-Kept id i wanted specs h told kept =
      Kept-then _ _ _
        (refresh_if-Kept p d (ltb specs.0.disk_capacity specs.1.disk_capacity) i _ h kept (λ f.
          type-Kept p d specs.1 i h (told.1, (specs.0, told.0, grows-ChangesType specs.0 specs.1 f))
            kept))
        (λ larger h1 k1.
          Kept-then _ _ _ (change_disks-Kept p d d.image_is_null specs.1 larger h1 refl k1)
            (λ changed h2 k2.
              Kept-then _ _ _
                (refresh_if-Kept p d
                  (specs.0.id != specs.1.id
                    && not (ltb specs.0.disk_capacity specs.1.disk_capacity))
                  larger (change_type p d specs.1 larger) h2 k2
                  (λ f.
                    type-Kept p d specs.1 larger h2
                      (told.1, (specs.0, told.0, other-ChangesType specs.0 specs.1 _ f)) k2))
                (λ sized h3 k3.
                  Kept-then _ _ _ (swap-Kept p d sized h3 k3)
                    (λ swapped h4 k4. boot_phase-Kept id sized _ h4 k4))))

  moves-Kept :
      (id : ℕ) (i : Instance) (h : History)
      → Every Q h
      → Kept Q (
          after
            (λ moved.
              or_fail "Error getting resize info for instance: " (get_instance_type_change p d)
              >>= (λ specs. update_disks p d id moved d.private_ip.has_change specs))
            (refresh_if p d.region.has_change i (migrate p d i) h))
  moves-Kept id i h kept =
      Kept-then _ _ _
        (refresh_if-Kept p d d.region.has_change i _ h kept (λ f. Kept-explained _ _ _ (
          migration-Kept p.client Q (quiet p d) d.migration_type i d.region.new h
            (λ k. (f, refl, refl)) kept)))
        (λ moved h1 k1.
          Kept-after _ _ _ _ (Kept-explained _ _ _ (types-Kept p d h1 k1))
            (Sure-explained _ _ _ (types-Sure p d h1))
            (λ specs h2 k2 told. disk_phase-Kept id moved _ specs h2 told k2))

  resource-Kept : (h : History) → Every Q h → Kept Q (update_resource p d h)
  unfolding update_resource
  resource-Kept h kept = Kept-step _ _ _ _ _ kept (λ id e k0. Kept-step _ _ _ _ _ k0 (λ valid e0 k1.
      Kept-step _ _ _ _ _ (tt, k1)
        (λ found e1 k2.
          Kept-then _ _ _
            (run_if-Kept p d d.placement_group_id.has_change _ _ k2 (λ f. Kept-explained _ _ _ (
              reassign-Kept p.client Q (quiet p d) p.is_not_found found.id d.placement_group_id.old
                d.placement_group_id.new d.compliant_only _ (λ k. (f, refl)) (λ k. (f, refl, refl))
                k2)))
            (λ a h3 k3.
              Kept-then _ _ _
                (refresh_if-Kept p d (is_simple_update d) found _ _ k3
                  (λ f. Kept-explained _ _ _ (Kept-last _ _ _ (simple_options-Tells d f, k3))))
                (λ updated h4 k4.
                  Kept-then _ _ _
                    (run_if-Kept p d d.backups_enabled.has_change _ _ k4
                      (λ f. backups-Kept p d d.backups_enabled.new updated _ f refl k4))
                    (λ b h5 k5.
                      Kept-then _ _ _
                        (run_if-Kept p d d.private_ip.has_change _ _ k5
                          (λ f. private_ip-Kept p d d.private_ip.new updated _ f refl k5))
                        (λ c h6 k6. moves-Kept id updated h6 k6)))))))

-- Whatever an update of an instance sends before it ends, also where it fails: a reboot only where reboots are
-- not skipped, `booted` is not false and there is a boot config; a boot only where `booted` is not
-- false; a shutdown only where `booted` is false, the configuration has no image, the swap size changes,
-- the interfaces change and reboots are not skipped, or the type changes in a cold migration; a change of
-- type only to the type of the configuration, where that is another type or has more disk space than the
-- old one, and only where the configured disks fit on it; disks are created and deleted only where the
-- configuration has no image, and resized only there or where the swap size changes; an update of the
-- instance only where one of its fields changes, with the new value of each that does and no other; and the
-- calls on the region, the placement group, the backups, the private address and the shared addresses
-- only where these change, with their new value (for leaving a placement group, the old one). The calls
-- on configs and volumes are not judged.
pub update_resource_sends :
    (p : Provider) (d : ResourceData) → Every (Justified p d) (update_resource p d []).1
update_resource_sends p d = Kept-holds _ _ (resource-Kept p d [] tt)
