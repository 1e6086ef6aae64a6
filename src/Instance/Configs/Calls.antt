-- ===== src/Instance/Configs/Calls.antt =====
-- The calls of an update of the configs before its deletions.
use terraform_provider_linod.Prelude.Runs.{
  Every, Kept, Kept-holds, Kept-step, Kept-last, Kept-call, Kept-then,
}
use terraform_provider_linod.Prelude.{
  ℕ, String, Bool, true, false, not, ◌&&◌, ◌≡◌, Option, none, some, List, [], ◌∷◌, Result, any,
  ◌==◌, nat_eq, string_eq, if◌then◌else◌,
}
use terraform_provider_linod.Prelude.Dict.{Dict, get}
use terraform_provider_linod.Instance.{
  InstanceConfig, Call, get_volume, detach_volume, wait_for_volume_detached, list_instance_configs,
  create_instance_config, update_instance_config, delete_instance_config, Client, History, Run, Ack,
}
use terraform_provider_linod.Instance.Configs.Volumes.{
  VolumeDetacher, volume_detacher, detach_unless_attached, volume_detacher_ignore_attached,
  detach_each, detach_config_volumes,
}
use terraform_provider_linod.Instance.Configs.Labels.{is_named}
use terraform_provider_linod.Instance.Configs.Options.{ConfigSpec}
use terraform_provider_linod.Instance.Configs.Update.{
  ConfigUpdates, create_instance_configs_from_set, detach_changed, update_or_create, update_configs,
}

-- A deletion is of this instance's config that was listed under a label of the old configs which the
-- new do not have; other calls are not judged.
abbrev pub DeleteAllowed :
    ℕ → List InstanceConfig → List ConfigSpec → List ConfigSpec → Call → History → Type 0
DeleteAllowed id listed old new (delete_instance_config n c) h =
    (n ≡ id)
    × (any
          (λ config. config.id == c && is_named config.label old && not (is_named config.label new))
          listed
        ≡ true)
DeleteAllowed id listed old new _ h = Unit

-- The calls of an update of the configs, but its deletions.
abbrev pub IsConfigCall : Call → Type 0
IsConfigCall (get_volume v) = Unit
IsConfigCall (detach_volume v) = Unit
IsConfigCall (wait_for_volume_detached v) = Unit
IsConfigCall (list_instance_configs n) = Unit
IsConfigCall (create_instance_config n options) = Unit
IsConfigCall (update_instance_config n c options) = Unit
IsConfigCall _ = ⊥

pub config_call-DeleteAllowed :
    (id : ℕ) (listed : List InstanceConfig) (old new : List ConfigSpec) (c : Call) (h : History)
    → IsConfigCall c
    → DeleteAllowed id listed old new c h
config_call-DeleteAllowed id listed old new (delete_instance_config n c) h safe = absurd safe
config_call-DeleteAllowed id listed old new _ h safe = tt

module _ (client : Client) (P : Call → History → Type 0)
    (quiet : (c : Call) (h : History) → IsConfigCall c → P c h) (id : ℕ) where
  detacher-Kept : (v : ℕ) (h : History) → Every P h → Kept P (volume_detacher client v h)
  unfolding volume_detacher
  detacher-Kept v h kept =
      Kept-call _ _ _ _ (quiet _ _ tt, kept)
        (λ a e k1. Kept-call _ _ _ _ (quiet _ _ tt, k1) (λ vol e1 k2. Kept-last _ _ _ k2))

  choice-Kept :
      (b : Bool) (m n : Run Ack) (h : History)
      → Kept P (m h)
      → Kept P (n h)
      → Kept P ((if b then m else n) h)
  choice-Kept true m n h first second = first
  choice-Kept false m n h first second = second

  unless-Kept :
      (v : ℕ) (linode : Option ℕ) (i : ℕ) (h : History)
      → Every P h
      → Kept P (detach_unless_attached client v linode i h)
  unless-Kept v none i h kept = detacher-Kept v h kept
  unless-Kept v (some linode) i h kept =
      choice-Kept (linode == i) _ _ h (Kept-last _ _ _ kept) (detacher-Kept v h kept)

  ignoring-Kept :
      (r : Result String ℕ) (v : ℕ) (h : History)
      → Every P h
      → Kept P (volume_detacher_ignore_attached client r v h)
  unfolding volume_detacher_ignore_attached
  ignoring-Kept r v h kept = Kept-call _ _ _ _ kept (λ i e1 k1.
      Kept-call _ _ _ _ (quiet _ _ tt, k1) (λ vol e2 k2. unless-Kept v vol.linode_id i _ k2))

  each-Kept :
      (detacher : VolumeDetacher)
      → ((v : ℕ) (h : History) → Every P h → Kept P (detacher v h))
      → (vs : List ℕ) (h : History) → Every P h
      → Every P (detach_each detacher vs h).1
  unfolding detach_each
  each-Kept detacher one [] h kept = kept
  each-Kept detacher one (v ∷ vs) h kept =
      each-Kept detacher one vs _ (Kept-holds _ _ (one v h kept))

  module _ (schedule : History → List ℕ → List ℕ) where
    detach-Kept :
        (detacher : VolumeDetacher)
        → ((v : ℕ) (h : History) → Every P h → Kept P (detacher v h))
        → (dmap : _) (h : History) → Every P h
        → Kept P (detach_config_volumes schedule dmap detacher h)
    unfolding detach_config_volumes
    detach-Kept detacher one dmap h kept = Kept-last _ _ _ (each-Kept detacher one _ h kept)

    create-Kept :
        (labels : Dict String ℕ) (cset : List ConfigSpec) (m : Dict ℕ InstanceConfig) (h : History)
        → Every P h
        → Kept P (
            create_instance_configs_from_set client schedule id labels
              (volume_detacher client)
              cset
              m
              h)
    unfolding create_instance_configs_from_set
    create-Kept labels [] m h kept = Kept-last _ _ _ kept
    create-Kept labels (config ∷ cset) m h kept = Kept-call _ _ _ _ kept (λ devices e1 k1.
        Kept-then _ _ _ (detach-Kept _ detacher-Kept devices h k1) (λ a h2 k2.
          Kept-step _ _ _ _ _ (quiet _ _ tt, k2) (λ created e3 k3. create-Kept labels cset _ _ k3)))

    changed-Kept :
        (r : Result String ℕ) (devices : Option _) (h : History)
        → Every P h
        → Kept P (detach_changed client schedule r devices h)
    changed-Kept r none h kept = Kept-last _ _ _ kept
    changed-Kept r (some devices) h kept = detach-Kept _ (ignoring-Kept r) devices h kept

    one-Kept :
        (r : Result String ℕ) (labels : Dict String ℕ) (boot : String)
        (existing : Option InstanceConfig) (spec : ConfigSpec) (updates : ConfigUpdates)
        (h : History)
        → Every P h
        → Kept P (update_or_create client schedule id r labels boot existing spec updates h)
    one-Kept r labels boot (some existing) spec updates h kept =
        Kept-call _ _ _ _ kept (λ options e1 k1.
          Kept-then _ _ _ (changed-Kept r options.devices h k1) (λ a h2 k2.
            Kept-step _ _ _ _ _ (quiet _ _ tt, k2) (λ updated e3 k3. Kept-last _ _ _ k3)))
    one-Kept r labels boot none spec updates h kept =
        Kept-then _ _ _ (create-Kept labels (spec ∷ []) [] h kept)
          (λ created h1 k1. Kept-last _ _ _ k1)

    pub configs-Kept :
        (r : Result String ℕ) (labels : Dict String ℕ) (boot : String)
        (m : Dict String InstanceConfig) (specs : List ConfigSpec) (updates : ConfigUpdates)
        (h : History)
        → Every P h
        → Kept P (update_configs client schedule id r labels boot m specs updates h)
    unfolding update_configs
    configs-Kept r labels boot m [] updates h kept = Kept-last _ _ _ kept
    configs-Kept r labels boot m (spec ∷ specs) updates h kept =
        Kept-then _ _ _ (one-Kept r labels boot (get spec.label m) spec updates h kept)
          (λ updates' h1 k1. configs-Kept r labels boot m specs updates' h1 k1)
