-- ===== src/Instance/Configs/Volumes.antt =====
-- The volumes of a config: makeVolumeDetacher to detachConfigVolumes of linode/instance/helpers.go.
use Prim.Native.String.{◌++◌ as append}
use terraform_provider_linod.Prelude.Runs.{done, lift, ◌>>=◌, ◌>>◌}
use terraform_provider_linod.Prelude.{
  ℕ, String, Option, none, some, List, [], ◌∷◌, Result, ok, err, ◌==◌, nat_eq, string_eq, ltb,
  if◌then◌else◌,
}
use terraform_provider_linod.Instance.{
  ConfigDevice, ConfigDeviceMap, get_volume, detach_volume, wait_for_volume_detached, Client,
  History, Run, Ack, act, ask_volume,
}
use terraform_provider_linod.Instance.Configs.{drives}

abbrev pub VolumeDetacher : Type 0
VolumeDetacher = ℕ → Run Ack

module _ (client : Client) where
  unfoldable pub volume_detacher : VolumeDetacher
  volume_detacher volume_id = do
    act client (detach_volume volume_id)
    ask_volume client (wait_for_volume_detached volume_id)
    done tt

  abbrev pub detach_unless_attached : ℕ → Option ℕ → ℕ → Run Ack
  detach_unless_attached volume_id none id = volume_detacher volume_id
  detach_unless_attached volume_id (some linode_id) id =
      let detach = volume_detacher volume_id in if linode_id == id then done tt else detach

  -- `id` is the resource's identifier, read as a number.
  unfoldable pub volume_detacher_ignore_attached : Result String ℕ → VolumeDetacher
  volume_detacher_ignore_attached id volume_id = do
    i ← lift id
    vol ← ask_volume client (get_volume volume_id)
    detach_unless_attached volume_id vol.linode_id i

-- The volumes of the drives that have one.
abbrev pub volumes : List (Option ConfigDevice) → List ℕ
volumes [] = []
volumes (none ∷ drives) = volumes drives
volumes (some dev ∷ drives) =
    let rest = volumes drives in if ltb 0 dev.volume_id then dev.volume_id ∷ rest else rest

-- One goroutine after another; a failure goes to the channel and stops no other.
abbrev pub report : Result String Ack → List String → List String
report (ok a) errors = errors
report (err e) errors = e ∷ errors

unfoldable pub detach_each : VolumeDetacher → List ℕ → History → List String × History
detach_each detacher [] h = ([], h)
detach_each detacher (v ∷ vs) h =
    let first = detacher v h in
    let rest = detach_each detacher vs first.1 in (report first.0 rest.0, rest.1)

-- The loop over the channel, as it is written: a comma goes before the first error only.
unfoldable pub join_errors : List String → String → String
join_errors [] err_str = err_str
join_errors (e ∷ errors) err_str =
    join_errors errors (append (if err_str == "" then append err_str ", " else err_str) e)

abbrev pub errors_or_nil : String → Result String Ack
errors_or_nil err_str =
    if err_str == "" then ok tt else err (append "Error detaching volumes: " err_str)

-- `schedule` is the order in which the goroutines run, which may differ from call to call.
unfoldable pub detach_config_volumes :
    (History → List ℕ → List ℕ) → ConfigDeviceMap → VolumeDetacher → Run Ack
detach_config_volumes schedule dmap detacher h =
    let r = detach_each detacher (schedule h (volumes (drives dmap))) h in
    (errors_or_nil (join_errors r.0 ""), r.1)
