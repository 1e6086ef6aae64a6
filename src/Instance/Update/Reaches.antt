-- ===== src/Instance/Update/Reaches.antt =====
-- The power state that an update of an instance leaves it in.
use terraform_provider_linod.Prelude.Runs.{
  after, or_fail, ◌>>=◌, Sure, Sure-holds, Sure-any, Sure-last, Sure-step, Sure-call, Sure-after,
  Sure-explained,
}
use terraform_provider_linod.Prelude.{
  ℕ, String, Bool, ◌≡◌, some, [], Result, ok, ltb, not, ◌&&◌, ◌!=◌, string_eq, if◌then◌else◌,
}
use terraform_provider_linod.Instance.{
  LinodeType, Status, offline, running, Instance, InstanceUpdateOptions, update_instance, Client,
  History, Ack,
}
use terraform_provider_linod.Instance.Semantics.{PowerSemantics}
use terraform_provider_linod.Instance.Update.{ResourceData, Provider, is_simple_update, type_change}
use terraform_provider_linod.Instance.Update.Handler.{
  refresh_if, update_configs_and_boot, update_disks, update_resource, change_type, migrate,
  get_instance_type_change,
}
use terraform_provider_linod.Instance.Update.Booted.{
  IsThis, told_this, type-IsThis, migration-IsThis, refresh_if-IsThis, handled, read-keeps,
}

-- The API answers an update of the instance with that instance.
abbrev pub AnswersUpdates : Client → ℕ → Type 0
AnswersUpdates client n =
    (o : InstanceUpdateOptions) (h : History) (i : Instance)
    → client.answers_instance (update_instance n o) h ≡ ok i
    → i.id ≡ n

updated_this :
    (client : Client) (n m : ℕ) (o : InstanceUpdateOptions) (h : History) (i : Instance)
    → AnswersUpdates client n
    → m ≡ n
    → client.answers_instance (update_instance m o) h ≡ ok i
    → i.id ≡ n
updated_this client n m o h i answers same e = answers o h i (cc)

same_id : (id : ℕ) {n : ℕ} {answer : Result String ℕ} → answer ≡ ok n → answer ≡ ok id → id ≡ n
same_id id e f = cc

module _ (p : Provider) {n : ℕ} {status_of : History → Status}
    (semantics : PowerSemantics p.client n status_of) (answers : AnswersUpdates p.client n)
    (d : ResourceData) (b : Bool) (set : d.booted ≡ some b) where
  abbrev Reached : Ack → History → Type 0
  Reached a k = status_of k ≡ (if b then running else offline)

  boot_phase-reaches :
      (id : ℕ) (i : Instance) (wanted : Bool) (h : History)
      → i.id ≡ n
      → Sure Reached (update_configs_and_boot p d id i wanted h)
  boot_phase-reaches id i wanted h this = Sure-after _ _ _ _ (Sure-any _) (λ labels h1 u1.
      Sure-after _ _ _ _ (Sure-any _) (λ updated h2 u2. Sure-call _ _ _ _ (λ boot_config e.
        Sure-after _ _ _ _ (Sure-any _) (λ reboots h4 u4.
          Sure-after _ _ _ _ (Sure-any _) (λ a h5 u5. Sure-after _ _ _ _ (Sure-any _) (λ c h6 u6.
            Sure-after _ Reached _ _
              (Sure-explained _ _ _ (handled p semantics d.booted b i.id boot_config h6 set this))
              (λ f h7 reached.
                read-keeps p semantics (if b then running else offline) id h7 reached)))))))

  disk_phase-reaches :
      (id : ℕ) (i : Instance) (wanted : Bool) (specs : LinodeType × LinodeType) (h : History)
      → i.id ≡ n
      → Sure Reached (update_disks p d id i wanted specs h)
  disk_phase-reaches id i wanted specs h this =
      Sure-after _ (IsThis n) _ _
        (refresh_if-IsThis p semantics (ltb specs.0.disk_capacity specs.1.disk_capacity) i _ h this
          (Sure-explained _ _ _ (type-IsThis p semantics (type_change d) i specs.1 h this)))
        (λ larger h1 this1. Sure-after _ _ _ _ (Sure-any _) (λ changed h2 u2.
          Sure-after _ (IsThis n) _ _
            (refresh_if-IsThis p semantics
              (specs.0.id != specs.1.id && not (ltb specs.0.disk_capacity specs.1.disk_capacity))
              larger (change_type p d specs.1 larger) h2 this1
              (Sure-explained _ _ _
                (type-IsThis p semantics (type_change d) larger specs.1 h2 this1)))
            (λ sized h3 this3.
              Sure-after _ _ _ _ (Sure-any _)
                (λ swapped h4 u4. boot_phase-reaches id sized _ h4 this3))))

  moves-reaches :
      (id : ℕ) (i : Instance) (h : History)
      → i.id ≡ n
      → Sure Reached (
          after
            (λ moved.
              or_fail "Error getting resize info for instance: " (get_instance_type_change p d)
              >>= (λ specs. update_disks p d id moved d.private_ip.has_change specs))
            (refresh_if p d.region.has_change i (migrate p d i) h))
  moves-reaches id i h this =
      Sure-after _ (IsThis n) _ _
        (refresh_if-IsThis p semantics d.region.has_change i _ h this (
          Sure-explained _ _ _
            (migration-IsThis p semantics d.migration_type i d.region.new h this)))
        (λ moved h1 this1.
          Sure-after _ _ _ _ (Sure-any _)
            (λ specs h2 u. disk_phase-reaches id moved _ specs h2 this1))

  resource-reaches : (h : History) → d.id ≡ ok n → Sure Reached (update_resource p d h)
  unfolding update_resource
  resource-reaches h mine = Sure-step _ _ _ _ _ (λ id e. Sure-step _ _ _ _ _ (λ valid e0.
      Sure-step _ _ _ _ _ (λ found e1.
        let this = told_this p semantics id _ found (same_id id mine e) e1 in
        Sure-after _ _ _ _ (Sure-any _) (λ a h3 u3.
          Sure-after _ (IsThis n) _ _
            (refresh_if-IsThis p semantics (is_simple_update d) found _ h3 this (
              Sure-explained _ _ _
                (Sure-last _ _ _ (λ i f. updated_this p.client n found.id _ _ i answers this f))))
            (λ updated h4 this4. Sure-after _ _ _ _ (Sure-any _) (λ c h5 u5.
              Sure-after _ _ _ _ (Sure-any _) (λ f h6 u6. moves-reaches id updated h6 this4)))))))

-- If the API keeps to the power semantics and answers an update of the instance with that instance, then
-- an update with `booted` set that succeeds leaves the instance running or offline, as asked, whatever
-- else it changes: group, type, region, disks, configs and interfaces, reboots included.
pub update_resource_reaches :
    (p : Provider) (n : ℕ) (status_of : History → Status) (d : ResourceData) (b : Bool)
    (h : History)
    → PowerSemantics p.client n status_of
    → AnswersUpdates p.client n
    → d.id ≡ ok n
    → d.booted ≡ some b
    → update_resource p d [] ≡ (ok tt, h)
    → status_of h ≡ (if b then running else offline)
update_resource_reaches p n status_of d b h semantics answers mine set e =
    Sure-holds (λ a k. status_of k ≡ (if b then running else offline))
      (resource-reaches p semantics answers d b set [] mine) e
