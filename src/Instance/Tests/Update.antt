-- ===== src/Instance/Tests/Update.antt =====
-- An update of an instance at a concrete configuration.
use terraform_provider_linod.Prelude.Runs.{Every, after, explained}
use terraform_provider_linod.Prelude.{
  String, ◌≡◌, refl, ap, sym, Result, true, false, none, some, [], ok, nat_eq, string_eq,
}
use terraform_provider_linod.Prelude.Dict.{get, put}
use terraform_provider_linod.Instance.{
  offline, Instance, Call, History, Ack, update_instance, warm, Client,
}
use terraform_provider_linod.Instance.Swap.{Change}
use terraform_provider_linod.Instance.Update.{ResourceData, Provider}
use terraform_provider_linod.Instance.Update.Handler.{update_resource}
use terraform_provider_linod.Instance.Update.Justified.{Justified}
use terraform_provider_linod.Instance.Semantics.{PowerSemantics}
use terraform_provider_linod.Instance.Update.Reaches.{AnswersUpdates, update_resource_reaches}
use terraform_provider_linod.Instance.Power.{
  handle_booted_update, wait_for_instance_non_transient_status, shut_down_instance_sync,
  boot_instance_sync,
}
use terraform_provider_linod.Instance.Disks.{get_instance_disks, index_disks}
use terraform_provider_linod.Instance.Swap.{adjust_swap_size_if_needed}
use terraform_provider_linod.Instance.Configs.Update.{
  index_configs, update_configs, delete_instance_configs, update_instance_configs,
}
use terraform_provider_linod.Instance.Update.{
  is_simple_update, validate_booted, map_labels, choose_boot_config, should_reboot,
}
use terraform_provider_linod.Instance.Update.Handler.{
  get_instance_type_change, get_instance_disk_label_id_map, read_resource,
}
use terraform_provider_linod.Instance.Update.Sent.{update_resource_sends}
use terraform_provider_linod.Instance.Tests.{client, instance_in, semantics, status_after}

abbrev unchanged : {A : Type 0} → A → Change A
unchanged a = record { old = a; new = a; has_change = false }

abbrev answer_update : Call → History → Result String Instance
answer_update (update_instance n o) h = ok (instance_in (status_after h))
answer_update c h = client.answers_instance c h

-- The API has one type, and answers an update with the instance.
abbrev typed_client : Client
typed_client = record client {
  answers_instance = answer_update;
  answers_type = λ c h. ok (record { id = "g6-standard-1"; disk_capacity = 100 });
}

abbrev provider : Provider
provider = record {
  client = typed_client;
  random = ok "secret";
  is_not_found = λ e. false;
  schedule = λ h ids. ids;
  ticks = 3;
  skip_implicit_reboots = false;
}

-- The label changes and a private address is wanted.
abbrev renamed : ResourceData
renamed = record {
  id = ok 1;
  label = record { old = "db"; new = "web"; has_change = true };
  group = unchanged "";
  maintenance_policy = unchanged "";
  tags = unchanged [];
  watchdog_enabled = unchanged true;
  alerts =
      unchanged (record { cpu = 90; io = 0; network_in = 0; network_out = 0; transfer_quota = 80 });
  placement_group_id = unchanged 0;
  compliant_only = none;
  backups_enabled = unchanged false;
  private_ip = record { old = false; new = true; has_change = true };
  region = unchanged "us-mia";
  migration_type = warm;
  type = unchanged "g6-standard-1";
  resize_disk = false;
  image = "linode/debian12";
  image_is_null = false;
  has_disk_blocks = false;
  disk = unchanged [];
  swap_size = unchanged 5;
  config = unchanged [];
  boot_config_label = "";
  booted = some true;
  interface = unchanged [];
  shared_ipv4 = unchanged [];
}

update_resource_sends_example :
    Every (Justified provider renamed) (update_resource provider renamed []).1
update_resource_sends_example = update_resource_sends provider renamed

-- The instance is to be off.
abbrev halted : ResourceData
halted = record renamed { booted = some false }

typed_semantics : PowerSemantics typed_client 1 status_after
typed_semantics = record {
  told = semantics.told;
  waited = semantics.waited;
  booted = semantics.booted;
  stopped = semantics.stopped;
  kept = semantics.kept;
}

answers_updates : AnswersUpdates typed_client 1
answers_updates o h i e =
    let same : instance_in (status_after h) ≡ i = cc in ap (λ (x : Instance). x.id) (sym same)

run_update : ResourceData → Result String Ack × History
unfolding update_resource validate_booted is_simple_update get_instance_type_change
    get_instance_disk_label_id_map get_instance_disks index_disks map_labels
    adjust_swap_size_if_needed index_configs update_configs delete_instance_configs
    update_instance_configs choose_boot_config should_reboot handle_booted_update
    wait_for_instance_non_transient_status shut_down_instance_sync boot_instance_sync read_resource
    after explained put get
run_update d = update_resource provider d []

halts : (update_resource provider halted []).0 ≡ ok tt
unfolding run_update
halts = refl

update_resource_reaches_example : status_after (update_resource provider halted []).1 ≡ offline
update_resource_reaches_example =
    update_resource_reaches provider 1 status_after halted false
      (update_resource provider halted []).1 typed_semantics answers_updates refl refl
      (ap (λ (r : Result String Ack). (r, (update_resource provider halted []).1)) halts)
