-- ===== src/Instance/Configs/Labels.antt =====
-- An update of the configs leaves every new label in the map of what it updated.
use mathlib.Core.Path.{subst}
use terraform_provider_linod.Prelude.Runs.{
  Sure, Sure-done, Sure-step, Sure-call, Sure-after, Sure-any, Sure-map,
}
use terraform_provider_linod.Prelude.{
  ℕ, String, Bool, true, ◌||◌, ◌≡◌, refl, sym, ap, ◌∙◌, Option, none, some, List, [], ◌∷◌, Result,
  ok, >>=-eq-ok, any, All, ◌==◌, ==_iff, ==_refl, nat_eq, string_eq, Bool-cases, inl, inr, arith,
}
use terraform_provider_linod.Prelude.Dict.{Dict, get, put, has_key, get-put}
use terraform_provider_linod.Prelude.Alls.{All-get}
use terraform_provider_linod.Instance.{
  ConfigOptions, InstanceConfig, create_instance_config, update_instance_config, Client, History,
  Run, Ack,
}
use terraform_provider_linod.Instance.Configs.Volumes.{volume_detacher}
use terraform_provider_linod.Instance.Configs.Options.{
  ConfigSpec, update_options, first_block, expand_first, overlaid,
}
use terraform_provider_linod.Instance.Configs.Update.{
  ConfigUpdates, add_created, create_instance_configs_from_set, update_or_create, update_configs,
}

abbrev pub is_named : String → List ConfigSpec → Bool
is_named label specs = any (λ spec. spec.label == label) specs

-- The API answers a creation or an update with the label that it was sent.
pub record AnswersLabels (client : Client) : Type 0 where
  pub created :
      (n : ℕ) (options : ConfigOptions) (h : History) (config : InstanceConfig)
      → client.answers_config (create_instance_config n options) h ≡ ok config
      → config.label ≡ options.label
  pub updated :
      (n c : ℕ) (options : ConfigOptions) (h : History) (config : InstanceConfig)
      → client.answers_config (update_instance_config n c options) h ≡ ok config
      → config.label ≡ options.label

-- The options that update a config have its label.
abbrev pub HasLabel : InstanceConfig → Type 0
HasLabel config = config.update_options.label ≡ config.label

has_key-put :
    (l k : String) (n : ℕ) (m : Dict String ℕ) → has_key l (put k n m) ≡ (k == l || has_key l m)
has_key-put l k n m = ground (arith, get-put k l n m)

-- The labels that are there stay, and the one that is put is there.
abbrev pub Grows : ConfigUpdates → ConfigUpdates → Type 0
Grows before after =
    (l : String)
    → has_key l before.updated_config_map ≡ true
    → has_key l after.updated_config_map ≡ true

put-Grows :
    (l k : String) (n : ℕ) (m : Dict String ℕ) → has_key l m ≡ true → has_key l (put k n m) ≡ true
put-Grows l k n m h = ground (arith, has_key-put l k n m, h)

put-here : (k : String) (n : ℕ) (m : Dict String ℕ) → has_key k (put k n m) ≡ true
put-here k n m = ground (arith, has_key-put k k n m, ==_refl k)

update_options-label :
    (labels : Dict String ℕ) (existing : InstanceConfig) (spec : ConfigSpec)
    (options : ConfigOptions)
    → update_options labels existing spec ≡ ok options
    → options.label ≡ existing.update_options.label
unfolding update_options
update_options-label labels existing spec options e =
    let r1 = >>=-eq-ok (first_block existing.update_options.helpers spec.helpers) _ e in
    let r2 = >>=-eq-ok (first_block none spec.devices) _ r1.2 in
    let r3 = >>=-eq-ok (expand_first labels r2.0) _ r2.2 in
    let same : overlaid existing spec r1.0 r3.0 ≡ options = cc in
    ap (λ (o : ConfigOptions). o.label) (sym same)

covered :
    (l : String) (spec : ConfigSpec) (specs : List ConfigSpec) (m : Dict String ℕ)
    → is_named l (spec ∷ specs) ≡ true
    → (is_named l specs ≡ true → has_key l m ≡ true)
    → has_key spec.label m ≡ true
    → has_key l m ≡ true
covered l spec specs m named rest here = elim (Bool-cases (spec.label == l)) [
  | inl e ↦
      let same : spec.label ≡ l = (==_iff spec.label l).0 e in
      subst (λ k. has_key k m ≡ true) same here
  | inr e ↦ rest (ground (arith, e, named))
]

-- What the index says of an entry.
abbrev pub IsLabelled : String × InstanceConfig → Type 0
IsLabelled e = e.1.update_options.label ≡ e.0

module _ (client : Client) (answers : AnswersLabels client) (schedule : History → List ℕ → List ℕ)
    (id : ℕ) where
  -- A round ends with the label of its config in the map.
  abbrev Placed : ConfigSpec → ConfigUpdates → ConfigUpdates → History → Type 0
  Placed spec before after h =
      (has_key spec.label after.updated_config_map ≡ true) × Grows before after

  abbrev IsOne : ConfigSpec → Dict ℕ InstanceConfig → History → Type 0
  IsOne spec m h =
      (config : InstanceConfig) × (m ≡ (config.id, config) ∷ []) × (config.label ≡ spec.label)

  create-IsOne :
      (labels : Dict String ℕ) (detacher : ℕ → Run Ack) (spec : ConfigSpec) (h : History)
      → Sure
          (IsOne spec)
          (create_instance_configs_from_set client schedule id labels detacher (spec ∷ []) [] h)
  unfolding create_instance_configs_from_set put
  create-IsOne labels detacher spec h = Sure-call _ _ _ _ (λ devices e1.
      Sure-after _ _ _ _ (Sure-any _) (λ a h2 u.
        Sure-step _ _ _ _ _
          (λ config e3. Sure-done _ _ _ (config, refl, answers.created _ _ _ _ e3))))

  one-Placed :
      (r : Result String ℕ) (labels : Dict String ℕ) (boot : String)
      (existing : Option InstanceConfig) (spec : ConfigSpec) (updates : ConfigUpdates) (h : History)
      → ((config : InstanceConfig)
          → existing ≡ some config
          → config.update_options.label ≡ spec.label)
      → Sure
          (Placed spec updates)
          (update_or_create client schedule id r labels boot existing spec updates h)
  unfolding add_created
  one-Placed r labels boot (some existing) spec updates h labelled =
      Sure-call _ _ _ _ (λ options e1. Sure-after _ _ _ _ (Sure-any _) (λ a h2 u.
        Sure-step _ _ _ _ _ (λ config e3.
          let same =
            answers.updated _ _ _ _ _ e3
            ∙ update_options-label labels existing spec options e1
            ∙ labelled existing refl in
          Sure-done _ _ _ (
            subst (λ k. has_key k (put config.label config.id updates.updated_config_map) ≡ true)
                same (put-here config.label config.id updates.updated_config_map),
            λ l here. put-Grows l config.label config.id updates.updated_config_map here,
          ))))
  one-Placed r labels boot none spec updates h labelled =
      Sure-after _ _ _ _ (create-IsOne labels (volume_detacher client) spec h) (λ m h1 one.
        let c = one.0 in
        subst (λ m'. Sure (Placed spec updates) (ok (add_created m' updates), h1)) (sym one.1)
          (Sure-done _ _ _ (
            subst (λ k. has_key k (put c.label c.id updates.updated_config_map) ≡ true) one.2
                (put-here c.label c.id updates.updated_config_map),
            λ l here. put-Grows l c.label c.id updates.updated_config_map here,
          )))

  abbrev pub Covers : List ConfigSpec → ConfigUpdates → ConfigUpdates → History → Type 0
  Covers specs before after h =
      ((l : String) → is_named l specs ≡ true → has_key l after.updated_config_map ≡ true)
      × Grows before after

  pub update_configs-Covers :
      (r : Result String ℕ) (labels : Dict String ℕ) (boot : String)
      (m : Dict String InstanceConfig) (specs : List ConfigSpec) (updates : ConfigUpdates)
      (h : History)
      → All IsLabelled m
      → Sure
          (Covers specs updates)
          (update_configs client schedule id r labels boot m specs updates h)
  unfolding update_configs
  update_configs-Covers r labels boot m [] updates h all =
      Sure-done _ _ _ (λ l e. cc, λ l here. here)
  update_configs-Covers r labels boot m (spec ∷ specs) updates h all =
      Sure-after _ _ _ _
        (one-Placed r labels boot (get spec.label m) spec updates h
          (λ config e. All-get IsLabelled spec.label m config all e))
        (λ updates' h1 placed.
          Sure-map _ _ _
            (λ after h2 covers. (
              λ l named.
                  covered l spec specs after.updated_config_map named (covers.0 l)
                    (covers.1 _ placed.0),
              λ l here. covers.1 l (placed.1 l here),
            ))
            (update_configs-Covers r labels boot m specs updates' h1 all))
