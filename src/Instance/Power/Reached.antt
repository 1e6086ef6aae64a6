-- ===== src/Instance/Power/Reached.antt =====
-- The power functions reach the state that they are named for.
use mathlib.Core.Path.{subst}
use terraform_provider_linod.Prelude.Runs.{
  ◌>>◌, Sure, Sure-holds, Sure-explained, Sure-last, Sure-done, Sure-fail, Sure-step, Sure-call,
  Sure-after,
}
use terraform_provider_linod.Prelude.{
  sym, ◌∙◌, ℕ, Bool, true, false, ◌≡◌, refl, some, ◌∷◌, ok, ◌⊎◌, inl, inr,
}
use terraform_provider_linod.Instance.{
  Status, offline, running, booting, rebooting, shutting_down, other, Instance, get_instance,
  wait_for_instance_status, Client, History, Ack, ask_instance,
}
use terraform_provider_linod.Instance.Semantics.{PowerSemantics}
use terraform_provider_linod.Instance.Power.{
  boot_instance_sync, shut_down_instance_sync, wait_for_instance_non_transient_status, settle,
  handle_booted_update, boot_unless_running, stop_unless_offline, safe_shutdown_instance,
  stop_safely, ensure_instance_offline, stop_to_offline, wait_to_reach,
}

module _ {client : Client} {id : ℕ} {status_of : History → Status}
    (semantics : PowerSemantics client id status_of) where
  abbrev Is : {A : Type 0} → Status → A → History → Type 0
  Is s a h = status_of h ≡ s

  pub boot_reaches :
      (config : ℕ) (h : History) → Sure (Is running) (boot_instance_sync client id config h)
  unfolding boot_instance_sync
  boot_reaches config h = Sure-step _ _ _ _ _ (λ a e.
      Sure-step _ _ _ _ _
        (λ b e'. Sure-explained _ _ _ (Sure-last _ _ _ (λ c e''. semantics.booted config _ c e''))))

  pub stop_reaches : (h : History) → Sure (Is offline) (shut_down_instance_sync client id h)
  unfolding shut_down_instance_sync
  stop_reaches h = Sure-step _ _ _ _ _ (λ a e.
      Sure-step _ _ _ _ _
        (λ b e'. Sure-explained _ _ _ (Sure-last _ _ _ (λ c e''. semantics.stopped _ c e''))))

  -- The status that is returned is the status, and it is running or offline.
  abbrev pub Settled : Status → History → Type 0
  Settled s h = (status_of h ≡ s) × ((s ≡ running) ⊎ (s ≡ offline))

  wait_settles :
      (target : Status) (h : History)
      → (target ≡ running) ⊎ (target ≡ offline)
      → Sure Settled (wait_to_reach client id target h)
  wait_settles target h final = Sure-step _ _ _ _ _ (λ a e.
      let w = semantics.waited target h a e in
      Sure-done _ _ _ (w.1 ∙ sym w.0, elim final [ inl r ↦ inl (w.0 ∙ r) | inr o ↦ inr (w.0 ∙ o) ]))

  settle_settles :
      (s : Status) (h : History) → status_of h ≡ s → Sure Settled (settle client id s h)
  settle_settles booting h e = wait_settles running h (inl refl)
  settle_settles rebooting h e = wait_settles running h (inl refl)
  settle_settles shutting_down h e = wait_settles offline h (inr refl)
  settle_settles running h e = Sure-done _ _ _ (e, inl refl)
  settle_settles offline h e = Sure-done _ _ _ (e, inr refl)
  settle_settles (other s) h e = Sure-fail _ _ _

  pub non_transient_settles :
      (h : History) → Sure Settled (wait_for_instance_non_transient_status client id h)
  unfolding wait_for_instance_non_transient_status
  non_transient_settles h = Sure-step _ _ _ _ _ (λ i e.
      let t = semantics.told h i e in
      subst (λ n. Sure Settled (settle client n i.status (get_instance id ∷ h))) (sym t.1)
        (settle_settles i.status _ (sym t.0)))

  abbrev booted_state : Bool → Status
  booted_state true = running
  booted_state false = offline

  from_running :
      (booted : Bool) (config : ℕ) (h : History)
      → status_of h ≡ running
      → Sure (Is (booted_state booted)) (
          (boot_unless_running client id config running booted
              >> stop_unless_offline client id running booted)
            h)
  from_running true config h e =
      Sure-after _ (Is running) _ _ (Sure-done _ _ _ e) (λ a h' r. Sure-done _ _ _ r)
  from_running false config h e =
      Sure-after _ (Is running) _ _ (Sure-done _ _ _ e) (λ a h' r. stop_reaches h')

  from_offline :
      (booted : Bool) (config : ℕ) (h : History)
      → status_of h ≡ offline
      → Sure (Is (booted_state booted)) (
          (boot_unless_running client id config offline booted
              >> stop_unless_offline client id offline booted)
            h)
  from_offline true config h e =
      Sure-after _ (Is running) _ _ (boot_reaches config h) (λ a h' r. Sure-done _ _ _ r)
  from_offline false config h e =
      Sure-after _ (Is offline) _ _ (Sure-done _ _ _ e) (λ a h' r. Sure-done _ _ _ r)

  both_reach :
      (booted : Bool) (config : ℕ) (s : Status) (h : History)
      → Settled s h
      → Sure (Is (booted_state booted)) (
          (boot_unless_running client id config s booted >> stop_unless_offline client id s booted)
            h)
  both_reach booted config s h (e, inl r) = rw r (from_running booted config h (e ∙ r))
  both_reach booted config s h (e, inr o) = rw o (from_offline booted config h (e ∙ o))

  -- If the API keeps to the power semantics, an update with `booted` set that succeeds leaves the
  -- instance running or offline, as asked, whatever was called before.
  pub handle_booted_update_reaches :
      (booted : Bool) (config : ℕ) (h h' : History) (a : Ack)
      → handle_booted_update client (some booted) id config h ≡ (ok a, h')
      → status_of h' ≡ booted_state booted
  unfolding handle_booted_update
  handle_booted_update_reaches booted config h h' a e =
      Sure-holds (Is (booted_state booted))
        (Sure-after _ Settled _ _ (non_transient_settles h) (both_reach booted config)) e

  stop_safely_reaches :
      (s : Status) (h : History) → Settled s h → Sure (Is offline) (stop_safely client id s h)
  stop_safely_reaches s h (e, inl r) = rw r (Sure-explained _ _ _ (stop_reaches h))
  stop_safely_reaches s h (e, inr o) = rw o (Sure-done _ _ _ (e ∙ o))

  -- If the API keeps to the power semantics, a safe shutdown that succeeds leaves the instance
  -- offline, whatever was called before.
  pub safe_shutdown_instance_reaches :
      (h h' : History) (a : Ack)
      → safe_shutdown_instance client id h ≡ (ok a, h')
      → status_of h' ≡ offline
  unfolding safe_shutdown_instance
  safe_shutdown_instance_reaches h h' a e =
      Sure-holds (Is offline)
        (Sure-after _ Settled _ _ (Sure-explained _ _ _ (non_transient_settles h))
          stop_safely_reaches)
        e

  abbrev IsStopped : Instance → History → Type 0
  IsStopped i h = (status_of h ≡ offline) × (i.status ≡ offline) × (i.id ≡ id)

  wait_offline :
      (h : History) → Sure IsStopped (ask_instance client (wait_for_instance_status id offline) h)
  wait_offline h =
      Sure-last _ _ _ (λ i e. let w = semantics.waited offline h i e in (w.1, w.0, w.2))

  stop_to_offline_stops :
      (i : Instance) (s : Status) (h : History)
      → i.status ≡ s
      → i.id ≡ id
      → status_of h ≡ s
      → Sure IsStopped (stop_to_offline client id i s h)
  stop_to_offline_stops i offline h e same now = Sure-done _ _ _ (now, e, same)
  stop_to_offline_stops i shutting_down h e same now = wait_offline h
  stop_to_offline_stops i running h e same now = Sure-call _ _ _ _ (λ a e'. wait_offline _)
  stop_to_offline_stops i booting h e same now = Sure-call _ _ _ _ (λ a e'. wait_offline _)
  stop_to_offline_stops i rebooting h e same now = Sure-call _ _ _ _ (λ a e'. wait_offline _)
  stop_to_offline_stops i (other s) h e same now = Sure-call _ _ _ _ (λ a e'. wait_offline _)

  pub ensure_offline_stops : (h : History) → Sure IsStopped (ensure_instance_offline client id h)
  unfolding ensure_instance_offline
  ensure_offline_stops h =
      Sure-call _ _ _ _ (λ i e.
        let t = semantics.told h i e in stop_to_offline_stops i i.status _ refl t.1 (sym t.0))

  -- If the API keeps to the power semantics, ensureInstanceOffline that succeeds returns the instance
  -- asked for, and the instance is offline, by its record and by its status.
  pub ensure_instance_offline_reaches :
      (h h' : History) (i : Instance)
      → ensure_instance_offline client id h ≡ (ok i, h')
      → (status_of h' ≡ offline) × (i.status ≡ offline) × (i.id ≡ id)
  ensure_instance_offline_reaches h h' i e = Sure-holds IsStopped (ensure_offline_stops h) e
