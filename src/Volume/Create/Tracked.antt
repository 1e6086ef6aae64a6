-- ===== src/Volume/Create/Tracked.antt =====
-- Which volumes a creation leaves, and which of them the state knows.
use terraform_provider_linod.Prelude.Runs.{after, explained, lift, ◌>>◌}
use terraform_provider_linod.Prelude.{
  ℕ, String, Bool, true, false, ◌≡◌, refl, ap, sym, not, ◌∙◌, ◌⊎◌, inl, inr, Option, none, some,
  List, [], ◌∷◌, Result, ok, err, nat_eq,
}
use terraform_provider_linod.Helpers.Attributes.{Attribute, null, unknown, known, is_null}
use terraform_provider_linod.Volume.{
  Volume, VolumeResourceModel, get_volume, wait_for_volume_active, History, Client, Conversions,
  Ack,
}
use terraform_provider_linod.Volume.Create.{
  clone_check, clone, finish_if, found_or_none, wait_created, create_with, by_source, Created,
  create_volume_from_source, create, saved,
}
use terraform_provider_linod.Volume.Create.Kept.{
  with_created, created, AnswersSubject, finish_clone-Keeps,
}

module _ (client : Client) where
  -- What a creation leaves: the volume, one more than before, or none more, or one more that is lost.
  abbrev pub Lost : History → History → Type 0
  Lost h [] = ⊥
  Lost h (wait_for_volume_active n ∷ k) =
      ((e : String) × (client.answers_volume (wait_for_volume_active n) k ≡ err e))
      × (created client k ≡ n ∷ created client h)
  Lost h (_ ∷ k) = ⊥

  abbrev Leaves : Bool → History → Option Volume → History → Type 0
  Leaves from_source h (some v) k = created client k ≡ v.id ∷ created client h
  Leaves true h none k = created client k ≡ created client h
  Leaves false h none k = (created client k ≡ created client h) ⊎ Lost h k

  module _ (conversions : Conversions) (answers : AnswersSubject client) where
    cloned-Leaves :
        (model : VolumeResourceModel) (message : String) (answer : Result String Volume)
        (h k : History)
        → created client k ≡ with_created answer (created client h)
        → Leaves true h
            (finish_if client conversions model (explained message (answer, k))).0.0
            (finish_if client conversions model (explained message (answer, k))).1
    unfolding explained
    cloned-Leaves model message (ok v) h k e =
        let keeps =
          finish_clone-Keeps client v.id (created client k) conversions answers model v k refl
            refl in
        keeps.1 ∙ e ∙ ap (λ n. n ∷ created client h) (sym keeps.0)
    cloned-Leaves model message (err m) h k e = e

    module _ (model : VolumeResourceModel) (h k : History)
        (e : created client k ≡ created client h) where
      checked-Leaves :
          (check : Result String Ack)
          → let r =
              finish_if client conversions model
                (after (λ a. clone client conversions model) (check, k)) in
            Leaves true h r.0.0 r.1
      unfolding after
      checked-Leaves (ok a) = cloned-Leaves model _ _ h _ (ap (with_created _) e)
      checked-Leaves (err m) = e

      source-Leaves :
          (answer : Result String Volume)
          → let r = finish_if client conversions model (
              after
                (λ v. lift (clone_check model v) >> clone client conversions model)
                (explained "Failed to Get Source Volume" (answer, k))) in
            Leaves true h r.0.0 r.1
      unfolding after explained
      source-Leaves (ok v) = checked-Leaves (clone_check model v)
      source-Leaves (err m) = e

    waited-Leaves :
        (v : Volume) (answer : Result String Volume) (h k : History)
        → client.answers_volume (wait_for_volume_active v.id) k ≡ answer
        → created client k ≡ v.id ∷ created client h
        → let r = found_or_none client conversions (
            explained "Failed to Wait for Created Volume be Active"
              (answer, wait_for_volume_active v.id ∷ k)) in
          Leaves false h r.0.0 r.1
    unfolding explained
    waited-Leaves v (ok w) h k e made =
        made ∙ ap (λ n. n ∷ created client h) (sym (answers _ v.id k w refl e))
    waited-Leaves v (err m) h k e made = inr ((m, e), made)

    created-Leaves :
        (answer : Result String Volume) (h k : History)
        → created client k ≡ with_created answer (created client h)
        → let r = found_or_none client conversions (
            after
              (wait_created client conversions)
              (explained "Failed to Create a Volume" (answer, k))) in
          Leaves false h r.0.0 r.1
    unfolding after explained
    created-Leaves (ok v) h k made = waited-Leaves v _ h k refl made
    created-Leaves (err m) h k made = inl made

    tagged-Leaves :
        (model : VolumeResourceModel) (tags : Result String (List String)) (h : History)
        → let r =
            found_or_none client conversions
              (after (λ t. create_with client conversions model t) (tags, h)) in
          Leaves false h r.0.0 r.1
    unfolding after
    tagged-Leaves model (ok tags) h = created-Leaves _ h _ refl
    tagged-Leaves model (err m) h = inl refl

    by_source-Leaves :
        (source : Attribute ℕ) (model : VolumeResourceModel) (h : History)
        → let r = by_source client conversions source model h in
          Leaves (not (is_null source)) h r.0.0 r.1
    unfolding create_volume_from_source
    by_source-Leaves null model h = tagged-Leaves model (conversions.elements_as model.tags) h
    by_source-Leaves unknown model h = source-Leaves model h (get_volume _ ∷ h) refl _
    by_source-Leaves (known source) model h = source-Leaves model h (get_volume _ ∷ h) refl _

    none-tracks :
        (source : Attribute ℕ) (h k : History)
        → Leaves (not (is_null source)) h none k
        → (created client k ≡ created client h) ⊎ ((source ≡ null) × Lost h k)
    none-tracks null h k (inl same) = inl same
    none-tracks null h k (inr lost) = inr (refl, lost)
    none-tracks unknown h k same = inl same
    none-tracks (known n) h k same = inl same

    saved-tracks :
        (plan : VolumeResourceModel) (h : History) (r : Created)
        → Leaves (not (is_null plan.source_volume_id)) h r.0.0 r.1
        → (((n : ℕ) × (m : VolumeResourceModel) × (saved client conversions plan r.0.0 ≡ some m)
              × (m.id ≡ known (conversions.itoa n))
              × (created client r.1 ≡ n ∷ created client h))
            ⊎ ((saved client conversions plan r.0.0 ≡ none)
                × (created client r.1 ≡ created client h)))
          ⊎ ((saved client conversions plan r.0.0 ≡ none)
              × (plan.source_volume_id ≡ null)
              × Lost h r.1)
    saved-tracks plan h ((some v, e), k) made = inl (inl (v.id, _, refl, refl, made))
    saved-tracks plan h ((none, e), k) made = elim (none-tracks plan.source_volume_id h k made) [
      | inl same ↦ inl (inr (refl, same))
      | inr (null_source, lost) ↦ inr (refl, null_source, lost)
    ]

    -- Every volume that a creation makes is saved in the state under its identifier, also where an
    -- error follows, but for one: without a source, a volume whose wait fails is created and not saved.
    -- Nothing else is created, and no volume is saved where none was created. This takes it that a
    -- reply about a volume is that volume.
    pub create_tracks :
        (plan : VolumeResourceModel) (h : History)
        → let r = create client conversions plan h in
          (((n : ℕ) × (m : VolumeResourceModel) × (r.0.0 ≡ some m)
              × (m.id ≡ known (conversions.itoa n))
              × (created client r.1 ≡ n ∷ created client h))
            ⊎ ((r.0.0 ≡ none) × (created client r.1 ≡ created client h)))
          ⊎ ((r.0.0 ≡ none) × (plan.source_volume_id ≡ null) × Lost h r.1)
    unfolding create
    create_tracks plan h =
        saved-tracks plan h (by_source client conversions plan.source_volume_id plan h)
          (by_source-Leaves plan.source_volume_id plan h)
