-- ===== src/Instance/Configs/Safety.antt =====
-- Which configs an update may delete.
use mathlib.Core.Path.{subst}
use terraform_provider_linod.Prelude.Runs.{
  Sure, Sure-done, Sure-call, Every, Kept, Kept-holds, Kept-step, Kept-last, Kept-call, Kept-after,
  Kept-then,
}
use terraform_provider_linod.Prelude.{
  ℕ, String, Bool, true, false, ◌&&◌, ◌≡◌, refl, Option, none, some, List, [], ◌∷◌, map, Result, ok,
  err, any, All, ◌==◌, ==_iff, ==_refl, nat_eq, string_eq, arith, if◌then◌else◌,
}
use terraform_provider_linod.Prelude.Dict.{Dict, get, put, delete, has_key, get-delete}
use terraform_provider_linod.Prelude.Alls.{All-map, any_imp, All-self, All-put, All-get}
use terraform_provider_linod.Instance.{
  InstanceConfig, list_instance_configs, delete_instance_config, Client, History,
}
use terraform_provider_linod.Instance.Configs.Labels.{
  is_named, AnswersLabels, HasLabel, IsLabelled, update_configs-Covers,
}
use terraform_provider_linod.Instance.Configs.Options.{ConfigSpec}
use terraform_provider_linod.Instance.Configs.Update.{
  index_configs, delete_listed, delete_instance_configs, update_instance_configs,
}
use terraform_provider_linod.Instance.Configs.Calls.{
  DeleteAllowed, configs-Kept, config_call-DeleteAllowed,
}

-- What the index says of an entry: it is listed, and its update keeps its label.
module _ (listed : List InstanceConfig) where
  abbrev IsListed : String × InstanceConfig → Type 0
  IsListed e = any (λ c. c.id == e.1.id && c.label == e.0) listed ≡ true

  abbrev IsIndexed : String × InstanceConfig → Type 0
  IsIndexed e = IsListed e × IsLabelled e

  if_err :
      (b : Bool) (e : String) (r : Result String (Dict String InstanceConfig))
      (m : Dict String InstanceConfig)
      → (if b then err e else r) ≡ ok m
      → r ≡ ok m
  if_err true e r m h = cc
  if_err false e r m h = h

  All-index :
      (configs : List InstanceConfig) (m m' : Dict String InstanceConfig)
      → All (λ c. IsIndexed (c.label, c)) configs
      → All IsIndexed m
      → index_configs configs m ≡ ok m'
      → All IsIndexed m'
  unfolding index_configs
  All-index [] m m' hd hm e = let same : m ≡ m' = cc in subst (All IsIndexed) same hm
  All-index (c ∷ configs) m m' hd hm e =
      All-index configs (put c.label c m) m' hd.1 (All-put IsIndexed c.label c m hd.0 hm)
        (if_err (has_key c.label m) _ _ m' e)

  All-both :
      {A : Type 0} (P Q : A → Type 0) (xs : List A) → All P xs → All Q xs → All (λ x. P x × Q x) xs
  All-both P Q [] p q = tt
  All-both P Q (x ∷ xs) p q = ((p.0, q.0), All-both P Q xs p.1 q.1)

  listed-IsIndexed : All HasLabel listed → All (λ c. IsIndexed (c.label, c)) listed
  listed-IsIndexed labelled =
      All-both _ _ listed
        (All-self (λ c d. d.id == c.id && d.label == c.label) listed
          (λ c. ground (arith, ==_refl c.id, ==_refl c.label)))
        labelled

module _ (client : Client) (id : ℕ) (listed : List InstanceConfig) (old new : List ConfigSpec) where
  abbrev CoversNew : Dict String ℕ → History → Type 0
  CoversNew ids h = (l : String) → is_named l new ≡ true → has_key l ids ≡ true

  has_key-delete :
      (k l : String) (ids : Dict String ℕ)
      → has_key k ids ≡ false
      → has_key l ids ≡ true
      → has_key l (delete k ids) ≡ true
  has_key-delete k l ids gone here = ground (arith, get-delete k l ids, gone, here, ==_iff k l)

  delete-Covers :
      (k : String) (b : Bool) (found : Option InstanceConfig) (ids : Dict String ℕ) (h : History)
      → has_key k ids ≡ b
      → CoversNew ids h
      → Sure CoversNew (delete_listed client id k b found ids h)
  delete-Covers k true found ids h e covers = Sure-done _ _ _ covers
  delete-Covers k false none ids h e covers = Sure-done _ _ _ covers
  delete-Covers k false (some config) ids h e covers =
      Sure-call _ _ _ _
        (λ a e1. Sure-done _ _ _ (λ l named. has_key-delete k l ids e (covers l named)))

  allowed_config :
      (k : String) (config : InstanceConfig) (ids : Dict String ℕ) (h : History)
      → IsListed listed (k, config)
      → is_named k old ≡ true
      → has_key k ids ≡ false
      → CoversNew ids h
      → DeleteAllowed id listed old new (delete_instance_config id config.id) h
  allowed_config k config ids h found named gone covers = (
    refl,
    any_imp (λ c. c.id == config.id && c.label == k) _ listed
        (λ c e.
          let same : c.label ≡ k = ground (arith, ==_iff c.label k) in
          rw (same, named) (ground (arith, covers k)))
        found,
  )

  delete-Kept :
      (k : String) (b : Bool) (found : Option InstanceConfig) (ids : Dict String ℕ) (h : History)
      → has_key k ids ≡ b
      → ((config : InstanceConfig) → found ≡ some config → IsListed listed (k, config))
      → is_named k old ≡ true
      → CoversNew ids h
      → Every (DeleteAllowed id listed old new) h
      → Kept (DeleteAllowed id listed old new) (delete_listed client id k b found ids h)
  delete-Kept k true found ids h e listing named covers kept = Kept-last _ _ _ kept
  delete-Kept k false none ids h e listing named covers kept = Kept-last _ _ _ kept
  delete-Kept k false (some config) ids h e listing named covers kept =
      Kept-call _ _ _ _ (allowed_config k config ids h (listing config refl) named e covers, kept)
        (λ a e1 k1. Kept-last _ _ _ k1)

  deletes-Kept :
      (old_labels : List String) (ids : Dict String ℕ) (m : Dict String InstanceConfig)
      (h : History)
      → All (λ l. is_named l old ≡ true) old_labels
      → All (IsIndexed listed) m
      → CoversNew ids h
      → Every (DeleteAllowed id listed old new) h
      → Kept
          (DeleteAllowed id listed old new)
          (delete_instance_configs client id old_labels ids m h)
  unfolding delete_instance_configs
  deletes-Kept [] ids m h names all covers kept = Kept-last _ _ _ kept
  deletes-Kept (k ∷ old_labels) ids m h names all covers kept =
      Kept-after _ CoversNew _ _
        (delete-Kept k (has_key k ids) (get k m) ids h refl
          (λ config e. (All-get (IsIndexed listed) k m config all e).0) names.0 covers kept)
        (delete-Covers k (has_key k ids) (get k m) ids h refl covers)
        (λ left h1 k1 covers1. deletes-Kept old_labels left m h1 names.1 all covers1 k1)

old_names :
    (old specs : List ConfigSpec)
    → All (λ s. is_named s.label old ≡ true) specs
    → All (λ l. is_named l old ≡ true) (map (λ (s : ConfigSpec). s.label) specs)
old_names old [] all = tt
old_names old (s ∷ specs) all = (all.0, old_names old specs all.1)

-- If the API lists these configs, keeps the labels of the options that it is sent, and the options to
-- update a listed config have its label, then whatever else it answers, in whatever order the volumes
-- are detached and wherever the update fails, every deletion is of this instance and of the identifier
-- of a listed config, whose label the old configs have and the new ones do not.
pub update_instance_configs_deletes :
    (client : Client) (schedule : History → List ℕ → List ℕ) (id : ℕ)
    (resource_id : Result String ℕ) (listed : List InstanceConfig) (old new : List ConfigSpec)
    (labels : Dict String ℕ) (boot : String)
    → client.answers_configs (list_instance_configs id) [] ≡ ok listed
    → AnswersLabels client
    → All HasLabel listed
    → Every
        (DeleteAllowed id listed old new)
        (update_instance_configs client schedule id resource_id old new labels boot []).1
unfolding update_instance_configs
update_instance_configs_deletes client schedule id resource_id listed old new labels boot answered
      answers labelled =
    Kept-holds _ _ (
      Kept-step _ _ _ _ _ (tt, tt)
        (λ configs e1 k1.
          let same : listed ≡ configs = cc in
          Kept-call _ _ _ _ k1 (λ m e2 k2.
            let all =
              All-index listed configs [] m
                (subst (All (λ c. IsIndexed listed (c.label, c))) same
                  (listed-IsIndexed listed labelled))
                tt e2 in
            Kept-after _ _ _ _
              (configs-Kept client (DeleteAllowed id listed old new)
                (config_call-DeleteAllowed id listed old new) id schedule resource_id labels boot m
                new _ _ k2)
              (update_configs-Covers client answers schedule id resource_id labels boot m new _ _
                (All-map _ _ m (λ e i. i.1) all))
              (λ updates h3 k3 covers.
                Kept-then _ _ _
                  (deletes-Kept client id listed old new _ updates.updated_config_map m h3
                    (old_names old old
                      (All-self (λ s t. t.label == s.label) old (λ s. ==_refl s.label)))
                    all covers.0 k3)
                  (λ ids h4 k4. Kept-last _ _ _ k4)))))
