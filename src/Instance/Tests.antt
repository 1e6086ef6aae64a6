-- ===== src/Instance/Tests.antt =====
-- An API for one instance with two disks, runs against it, and the theorems at concrete inputs.
mod Operation
mod Configs
mod Placement
mod Swap
mod Update
use terraform_provider_linod.Prelude.Runs.{after, explained, Every}
use terraform_provider_linod.Prelude.{
  ℕ, String, Bool, true, false, ◌≡◌, refl, sym, ap, ◌≤◌, none, some, List, [], ◌∷◌, Result, ok, err,
  if◌then◌else◌, string_eq,
}
use terraform_provider_linod.Prelude.Dict.{get, put, has_key}
use terraform_provider_linod.Instance.{
  LinodeType, ConfigOptions, InstanceConfig, create_instance_config, update_instance_config, Status,
  offline, running, Instance, Disk, cold, Call, get_instance, wait_for_instance_status,
  boot_instance, shutdown_instance, Client, History, Ack,
}
use terraform_provider_linod.Instance.Semantics.{KeepsPower, PowerSemantics}
use terraform_provider_linod.Instance.Power.{
  handle_booted_update, wait_for_instance_non_transient_status, boot_instance_sync,
  shut_down_instance_sync, safe_shutdown_instance, ensure_instance_offline,
}
use terraform_provider_linod.Instance.Power.Reached.{
  handle_booted_update_reaches, safe_shutdown_instance_reaches,
}
use terraform_provider_linod.Instance.Configs.Labels.{AnswersLabels}
use terraform_provider_linod.Instance.Disks.{
  DiskSpec, index_disks, disk_specs_by_label, place_new, unplaced, get_instance_disk_spec_diffs,
  disk_options, get_instance_disks, create_instance_disk, change_instance_disk_size,
}
use terraform_provider_linod.Instance.Disks.Update.{
  check_present, delete_removed, update_existing, create_added, update_instance_disks,
}
use terraform_provider_linod.Instance.Disks.Partition.{get_instance_disk_spec_diffs_parts}
use terraform_provider_linod.Instance.Disks.Safety.{DeleteAllowed, update_instance_disks_deletes}
use terraform_provider_linod.Instance.Disks.Sizes.{
  ResizeAllowed, Confirmed, update_instance_disks_resizes, change_instance_disk_size_confirms,
}
use terraform_provider_linod.Instance.Resize.{TypeChange, apply_instance_type_change}
use terraform_provider_linod.Instance.Resize.Offline.{
  TypeAllowed, apply_instance_type_change_resizes,
}

-- The instance runs until it is shut down, and a wait lasts until its status is there.
abbrev pub status_after : History → Status
status_after [] = running
status_after (shutdown_instance n ∷ h) = offline
status_after (boot_instance n config ∷ h) = running
status_after (wait_for_instance_status n target ∷ h) = target
status_after (_ ∷ h) = status_after h

abbrev pub instance_in : Status → Instance
instance_in s = record { id = 1; status = s; disk_capacity = 100 }

abbrev pub boot_disk : Disk
boot_disk = record { id = 11; label = "boot"; size = 20; filesystem = "ext4" }

abbrev pub swap_disk : Disk
swap_disk = record { id = 12; label = "swap"; size = 5; filesystem = "swap" }

abbrev pub disks : List Disk
disks = boot_disk ∷ swap_disk ∷ []

abbrev answer_instance : Call → History → Result String Instance
answer_instance (get_instance n) h = ok (instance_in (status_after h))
answer_instance (wait_for_instance_status n target) h = ok (instance_in target)
answer_instance _ h = err "no instance"

-- The API answers with the config that it was sent.
abbrev config_of : ℕ → ConfigOptions → InstanceConfig
config_of id options = record {
  id = id;
  label = options.label;
  purposes = [];
  update_options = options;
}

abbrev plain_config : String → ConfigOptions
plain_config label = record {
  label = label;
  kernel = "";
  comments = "";
  virt_mode = "";
  run_level = "";
  memory_limit = 0;
  root_device = none;
  helpers = none;
  interfaces = none;
  devices = none;
}

abbrev pub configs : List InstanceConfig
configs = config_of 41 (plain_config "main") ∷ config_of 42 (plain_config "rescue") ∷ []

abbrev answer_config : Call → History → Result String InstanceConfig
answer_config (create_instance_config n options) h = ok (config_of 43 options)
answer_config (update_instance_config n id options) h = ok (config_of id options)
answer_config _ h = err "no config"

abbrev pub client : Client
client = record {
  acts = λ c h. ok tt;
  answers_instance = answer_instance;
  answers_disk = λ c h. ok (record { id = 11; label = "boot"; size = 30; filesystem = "ext4" });
  answers_disks = λ c h. ok disks;
  answers_volume = λ c h. ok (record { id = 31; linode_id = none });
  answers_config = answer_config;
  answers_configs = λ c h. ok configs;
  answers_type = λ c h. err "no type";
}

status_kept : (c : Call) (h : History) → KeepsPower c → status_after (c ∷ h) ≡ status_after h
status_kept (boot_instance n config) h k = absurd k
status_kept (shutdown_instance n) h k = absurd k
status_kept (wait_for_instance_status n s) h k = absurd k
status_kept _ h k = refl

pub semantics : PowerSemantics client 1 status_after
semantics = record {
  told = λ h i e.
      let same : instance_in (status_after h) ≡ i = cc in
      (ap (λ (x : Instance). x.status) (sym same), ap (λ (x : Instance). x.id) (sym same));
  waited = λ target h i e.
      let same : instance_in target ≡ i = cc in
      (ap (λ (x : Instance). x.status) (sym same), refl, ap (λ (x : Instance). x.id) (sym same));
  booted = λ config h a e. refl;
  stopped = λ h a e. refl;
  kept = status_kept;
}

pub answers_labels : AnswersLabels client
answers_labels = record {
  created = λ n options h config e.
      let same : config_of 43 options ≡ config = cc in
      ap (λ (c : InstanceConfig). c.label) (sym same);
  updated = λ n c options h config e.
      let same : config_of c options ≡ config = cc in
      ap (λ (c : InstanceConfig). c.label) (sym same);
}

abbrev spec_of : String → ℕ → String → DiskSpec
spec_of label size filesystem = record {
  label = label;
  size = size;
  filesystem = filesystem;
  image = none;
  root_pass = none;
  authorized_keys = none;
  authorized_users = none;
  stackscript_id = none;
  stackscript_data = none;
}

abbrev old_specs : List DiskSpec
old_specs = spec_of "boot" 20 "ext4" ∷ spec_of "swap" 5 "swap" ∷ []

abbrev new_specs : List DiskSpec
new_specs = spec_of "boot" 30 "ext4" ∷ spec_of "data" 10 "ext4" ∷ []

-- The line opens what a run computes with.
run_disks : List DiskSpec → List DiskSpec → Result String Bool × History
unfolding update_instance_disks get_instance_disks index_disks disk_specs_by_label place_new
    unplaced get_instance_disk_spec_diffs check_present delete_removed update_existing create_added
    create_instance_disk disk_options change_instance_disk_size after explained get put
run_disks old new = update_instance_disks client (ok "secret") (instance_in running) old new []

update_runs :
    (update_instance_disks client (ok "secret") (instance_in running) old_specs new_specs []).0
    ≡ ok true
unfolding run_disks
update_runs = refl

get_instance_disk_spec_diffs_parts_example :
    let old = disk_specs_by_label old_specs [] in
    let new = disk_specs_by_label new_specs [] in
    let diffs = get_instance_disk_spec_diffs old new in
    (get "boot" diffs.added ≡ (if has_key "boot" old then none else get "boot" new))
    × (get "boot" diffs.existing ≡ (if has_key "boot" old then get "boot" new else none))
    × (get "boot" diffs.removed ≡ (if has_key "boot" new then none else get "boot" old))
get_instance_disk_spec_diffs_parts_example =
    get_instance_disk_spec_diffs_parts (disk_specs_by_label old_specs [])
      (disk_specs_by_label new_specs []) "boot"

update_instance_disks_deletes_example :
    Every
      (λ c h. DeleteAllowed (instance_in running) disks old_specs new_specs c)
      (update_instance_disks client (ok "secret") (instance_in running) old_specs new_specs []).1
update_instance_disks_deletes_example =
    update_instance_disks_deletes client (ok "secret") (instance_in running) disks old_specs
      new_specs refl

update_instance_disks_resizes_example :
    Every
      (λ c h. ResizeAllowed (instance_in running) status_after c h)
      (update_instance_disks client (ok "secret") (instance_in running) old_specs new_specs []).1
update_instance_disks_resizes_example =
    update_instance_disks_resizes client (ok "secret") (instance_in running) status_after old_specs
      new_specs semantics

run_power : Bool → Result String Ack × History
unfolding handle_booted_update wait_for_instance_non_transient_status boot_instance_sync
    shut_down_instance_sync safe_shutdown_instance ensure_instance_offline after explained
run_power booted = handle_booted_update client (some booted) 1 2 []

handle_booted_update_reaches_example :
    status_after (handle_booted_update client (some false) 1 2 []).1 ≡ offline
unfolding run_power
handle_booted_update_reaches_example =
    handle_booted_update_reaches semantics false 2 []
      (handle_booted_update client (some false) 1 2 []).1 tt refl

abbrev larger : LinodeType
larger = record { id = "g6-standard-4"; disk_capacity = 160 }

abbrev change : TypeChange
change = record {
  resize_disk = true;
  migration_type = cold;
  explicit_disks = false;
  new_disks = [];
}

apply_instance_type_change_resizes_example :
    Every
      (λ c h. TypeAllowed (instance_in running) larger change status_after c h)
      (apply_instance_type_change client 3 change (instance_in running) larger []).1
apply_instance_type_change_resizes_example =
    apply_instance_type_change_resizes client 3 change (instance_in running) larger status_after
      semantics
