-- ===== src/Instance/Update/Booted.antt =====
-- What the steps of an update of an instance say of it: which instance they give, and its power state.
use terraform_provider_linod.Prelude.Runs.{
  Sure, Sure-fail, Sure-any, Sure-last, Sure-step, Sure-call, Sure-done, Sure-after, Sure-explained,
}
use terraform_provider_linod.Prelude.{
  ℕ, String, Bool, true, false, ◌≡◌, refl, ◌∙◌, Option, none, some, List, Result, ok, err,
  string_eq, if◌then◌else◌,
}
use terraform_provider_linod.Instance.{
  LinodeType, Status, offline, running, booting, rebooting, shutting_down, other, Instance,
  Migration, cold, warm, ResizeOptions, Disk, get_instance, wait_for_instance_status, History, Run,
}
use terraform_provider_linod.Instance.Semantics.{PowerSemantics}
use terraform_provider_linod.Instance.Power.{
  handle_booted_update, stop_to_offline, ensure_instance_offline,
}
use terraform_provider_linod.Instance.Power.Reached.{handle_booted_update_reaches}
use terraform_provider_linod.Instance.Resize.{
  TypeChange, start_state, wait_for_size, send_resize, change_instance_type,
  apply_instance_type_change,
}
use terraform_provider_linod.Instance.Placement.{apply_instance_migration}
use terraform_provider_linod.Instance.Update.{Provider}
use terraform_provider_linod.Instance.Update.Handler.{
  refresh_if, read_found, read_after, read_resource,
}

Sure-of :
    {C A : Type 0} (Q : A → List C → Type 0) (r : Result String A × List C)
    → ((a : A) (h : List C) → r ≡ (ok a, h) → Q a h)
    → Sure Q r
unfolding Sure
Sure-of Q (ok a, h) q = q a h refl
Sure-of Q (err e, h) q = tt

abbrev pub IsThis : ℕ → Instance → History → Type 0
IsThis n i h = i.id ≡ n

module _ (p : Provider) {n : ℕ} {status_of : History → Status}
    (semantics : PowerSemantics p.client n status_of) where
  pub told_this :
      (m : ℕ) (h : History) (i : Instance)
      → m ≡ n
      → p.client.answers_instance (get_instance m) h ≡ ok i
      → i.id ≡ n
  told_this m h i same e = (semantics.told h i (cc)).1

  waited_this :
      (m : ℕ) (target : Status) (h : History) (i : Instance)
      → m ≡ n
      → p.client.answers_instance (wait_for_instance_status m target) h ≡ ok i
      → i.id ≡ n
  waited_this m target h i same e = (semantics.waited target h i (cc)).2

  stop-IsThis :
      (m : ℕ) (i : Instance) (s : Status) (h : History)
      → m ≡ n
      → i.id ≡ n
      → Sure (IsThis n) (stop_to_offline p.client m i s h)
  stop-IsThis m i offline h same this = Sure-done _ _ _ this
  stop-IsThis m i shutting_down h same this =
      Sure-last _ _ _ (λ seen e. waited_this m _ _ seen same e)
  stop-IsThis m i running h same this =
      Sure-call _ _ _ _ (λ a f. Sure-last _ _ _ (λ seen e. waited_this m _ _ seen same e))
  stop-IsThis m i booting h same this =
      Sure-call _ _ _ _ (λ a f. Sure-last _ _ _ (λ seen e. waited_this m _ _ seen same e))
  stop-IsThis m i rebooting h same this =
      Sure-call _ _ _ _ (λ a f. Sure-last _ _ _ (λ seen e. waited_this m _ _ seen same e))
  stop-IsThis m i (other s) h same this =
      Sure-call _ _ _ _ (λ a f. Sure-last _ _ _ (λ seen e. waited_this m _ _ seen same e))

  start-IsThis :
      (migration : Migration) (m : ℕ) (h : History)
      → m ≡ n
      → Sure (IsThis n) (start_state p.client migration m h)
  unfolding ensure_instance_offline
  start-IsThis cold m h same =
      Sure-explained _ _ _
        (Sure-call _ _ _ _ (λ i e. stop-IsThis m i i.status _ same (told_this m _ i same e)))
  start-IsThis warm m h same =
      Sure-explained _ _ _ (Sure-last _ _ _ (λ i e. told_this m _ i same e))

  wait_for_size-IsThis :
      (ticks : ℕ) (i : Instance) (primary : Option Disk) (h : History)
      → i.id ≡ n
      → Sure (IsThis n) (wait_for_size p.client ticks i primary h)
  wait_for_size-IsThis ticks i none h this = Sure-done _ _ _ this
  wait_for_size-IsThis ticks i (some disk) h this =
      Sure-after _ _ _ _ (Sure-any _) (λ a k u. Sure-done _ _ _ this)

  send-IsThis :
      (ticks : ℕ) (o : ResizeOptions) (i : Instance) (primary : Option Disk) (h : History)
      → i.id ≡ n
      → Sure (IsThis n) (send_resize p.client ticks o i primary h)
  send-IsThis ticks o i primary h this = Sure-step _ _ _ _ _ (λ a e. Sure-step _ _ _ _ _ (λ b e1.
      Sure-step _ _ _ _ _ (λ c e2. Sure-step _ _ _ _ _ (λ resized e3.
        wait_for_size-IsThis ticks resized primary _ (waited_this i.id _ _ resized this e3)))))

  pub type-IsThis :
      (change : TypeChange) (i : Instance) (typ : LinodeType) (h : History)
      → i.id ≡ n
      → Sure (IsThis n) (apply_instance_type_change p.client p.ticks change i typ h)
  unfolding apply_instance_type_change change_instance_type
  type-IsThis change i typ h this = Sure-after _ _ _ _ (Sure-any _) (λ a h1 u.
      Sure-after _ _ _ _ (Sure-any _) (λ b h2 v.
        Sure-after _ (IsThis n) _ _ (start-IsThis change.migration_type i.id h2 this)
          (λ seen h3 seen_this.
            Sure-after _ _ _ _ (Sure-any _)
              (λ primary h4 w. send-IsThis p.ticks _ seen primary h4 seen_this))))

  pub migration-IsThis :
      (m : Migration) (i : Instance) (region : String) (h : History)
      → i.id ≡ n
      → Sure (IsThis n) (apply_instance_migration p.client m i region h)
  unfolding apply_instance_migration
  migration-IsThis m i region h this = Sure-step _ _ _ _ _ (λ a e. Sure-step _ _ _ _ _ (λ b e1.
      Sure-step _ _ _ _ _ (λ c e2.
        Sure-explained _ _ _ (Sure-last _ _ _ (λ moved f. told_this i.id _ moved this f)))))

  pub refresh_if-IsThis :
      (b : Bool) (i : Instance) (run : Run Instance) (h : History)
      → i.id ≡ n
      → Sure (IsThis n) (run h)
      → Sure (IsThis n) (refresh_if p b i run h)
  refresh_if-IsThis true i run h this next = next
  refresh_if-IsThis false i run h this next = Sure-done _ _ _ this

  pub handled :
      (booted : Option Bool) (b : Bool) (m config : ℕ) (h : History)
      → booted ≡ some b
      → m ≡ n
      → Sure
          (λ a k. status_of k ≡ (if b then running else offline))
          (handle_booted_update p.client booted m config h)
  handled booted true m config h e same =
      rw e (
        rw same (Sure-of _ _ (λ a k f. handle_booted_update_reaches semantics true config h k a f)))
  handled booted false m config h e same =
      rw e (
        rw same
          (Sure-of _ _ (λ a k f. handle_booted_update_reaches semantics false config h k a f)))

  module _ (s : Status) where
    found-keeps :
        (m : ℕ) (h : History) → status_of h ≡ s → Sure (λ a k. status_of k ≡ s) (read_found p m h)
    found-keeps m h e = Sure-step _ _ _ _ _ (λ a f. Sure-step _ _ _ _ _ (λ b g.
        Sure-step _ _ _ _ _ (λ c i.
          Sure-done _ _ _
            (semantics.kept _ _ tt ∙ semantics.kept _ _ tt ∙ semantics.kept _ _ tt ∙ e))))

    missing-keeps :
        (missing : Bool) (h : History)
        → status_of h ≡ s
        → Sure
            (λ a k. status_of k ≡ s)
            (if missing then (ok tt, h) else (err "failed to get instance: ", h))
    missing-keeps true h e = Sure-done _ _ _ e
    missing-keeps false h e = Sure-fail _ _ _

    after-keeps :
        (m : ℕ) (answer : Result String Instance) (h : History)
        → status_of h ≡ s
        → Sure (λ a k. status_of k ≡ s) (read_after p (answer, h) m)
    after-keeps m (ok i) h e = found-keeps m h e
    after-keeps m (err message) h e = missing-keeps (p.is_not_found message) h e

    pub read-keeps :
        (m : ℕ) (h : History)
        → status_of h ≡ s
        → Sure (λ a k. status_of k ≡ s) (read_resource p m h)
    unfolding read_resource
    read-keeps m h e = after-keeps m _ _ (semantics.kept _ _ tt ∙ e)
