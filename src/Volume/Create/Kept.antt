-- ===== src/Volume/Create/Kept.antt =====
-- The steps after the clone of a volume keep it, and create no other.
use terraform_provider_linod.Prelude.Runs.{after, explained, or_fail}
use terraform_provider_linod.Prelude.{
  ℕ, String, Bool, true, false, ◌≡◌, refl, ◌∙◌, Option, none, some, List, [], ◌∷◌, Result, ok, err,
  ◌!=◌, nat_eq,
}
use terraform_provider_linod.Helpers.Attributes.{Attribute, null, unknown, known}
use terraform_provider_linod.Volume.{
  Volume, VolumeResourceModel, Call, clone_volume, create_volume, wait_for_volume_active,
  update_volume, attach_volume, wait_for_volume_linode_id, History, Client, Conversions,
  handle_resize, Ack, ask,
}
use terraform_provider_linod.Volume.Create.{
  Outcome, Step, then_step, kept, replaced, send_tags, tag_clone, resize_if, resize_clone,
  attach_clone, finish_clone,
}

abbrev pub with_created : Result String Volume → List ℕ → List ℕ
with_created (ok v) ids = v.id ∷ ids
with_created (err e) ids = ids

-- The volume that a call is about, where its reply is that volume.
abbrev pub subject : Call → Option ℕ
subject (wait_for_volume_active n) = some n
subject (update_volume n options) = some n
subject (attach_volume n l) = some n
subject (wait_for_volume_linode_id n l) = some n
subject _ = none

module _ (client : Client) where
  -- The volumes that were created, the latest first.
  abbrev pub created : History → List ℕ
  created [] = []
  created (clone_volume source label ∷ h) =
      with_created (client.answers_volume (clone_volume source label) h) (created h)
  created (create_volume options ∷ h) =
      with_created (client.answers_volume (create_volume options) h) (created h)
  created (_ ∷ h) = created h

  -- A reply about a volume is that volume.
  abbrev pub AnswersSubject : Type 0
  AnswersSubject =
      (c : Call) (n : ℕ) (h : History) (v : Volume)
      → subject c ≡ some n
      → client.answers_volume c h ≡ ok v
      → v.id ≡ n

  -- The volume of an outcome is the one before it, and no other was created.
  abbrev pub Keeps : ℕ → List ℕ → Outcome → Type 0
  Keeps n ids r = (r.0.0.id ≡ n) × (created r.1 ≡ ids)

  module _ (n : ℕ) (ids : List ℕ) where
    then-Keeps :
        (step : Step) (r : Outcome)
        → ((v : Volume) (h : History) → v.id ≡ n → created h ≡ ids → Keeps n ids (step v h))
        → Keeps n ids r
        → Keeps n ids (then_step step r)
    unfolding then_step
    then-Keeps step ((v, none), h) next keeps = next v h keeps.0 keeps.1
    then-Keeps step ((v, some e), h) next keeps = keeps

    kept-Keeps :
        (v : Volume) (message : String) (r : Result String Volume) (h : History)
        → v.id ≡ n
        → created h ≡ ids
        → Keeps n ids (kept v (explained message (r, h)))
    unfolding kept explained
    kept-Keeps v message (ok w) h same e = (same, e)
    kept-Keeps v message (err m) h same e = (same, e)

    replaced-Keeps :
        (v : Volume) (message : String) (r : Result String Volume) (h : History)
        → v.id ≡ n
        → ((w : Volume) → r ≡ ok w → w.id ≡ n)
        → created h ≡ ids
        → Keeps n ids (replaced v (explained message (r, h)))
    unfolding replaced explained
    replaced-Keeps v message (ok w) h same answers e = (answers w refl, e)
    replaced-Keeps v message (err m) h same answers e = (same, e)

    resized-Keeps :
        (v : Volume) (size : ℕ) (answer : Result String Ack) (h : History)
        → AnswersSubject
        → v.id ≡ n
        → created h ≡ ids
        → Keeps n ids (
            replaced v (
              after
                (λ a.
                  or_fail "Failed to Wait for Volume Ready from Resizing"
                    (ask client (wait_for_volume_active v.id)))
                (explained "Failed to Resize Volume" (answer, h))))
    unfolding after explained replaced
    resized-Keeps v size (ok a) h answers same e =
        replaced-Keeps v "Failed to Wait for Volume Ready from Resizing"
          (client.answers_volume (wait_for_volume_active v.id) h) (wait_for_volume_active v.id ∷ h)
          same (λ w r. answers (wait_for_volume_active v.id) v.id h w refl r ∙ same) e
    resized-Keeps v size (err m) h answers same e = (same, e)

    module _ (conversions : Conversions) (answers : AnswersSubject) where
      resize_if-Keeps :
          (changed : Bool) (size : ℕ) (v : Volume) (h : History)
          → v.id ≡ n
          → created h ≡ ids
          → Keeps n ids (resize_if client conversions changed size v h)
      unfolding handle_resize
      resize_if-Keeps true size v h same e = resized-Keeps v size _ _ answers same e
      resize_if-Keeps false size v h same e = (same, e)

      resize_clone-Keeps :
          (size : Attribute ℕ) (v : Volume) (h : History)
          → v.id ≡ n
          → created h ≡ ids
          → Keeps n ids (resize_clone client conversions size v h)
      resize_clone-Keeps (known size) v h same e = resize_if-Keeps (size != v.size) size v h same e
      resize_clone-Keeps null v h same e = (same, e)
      resize_clone-Keeps unknown v h same e = (same, e)

      send_tags-Keeps :
          (tags : Result String (List String)) (v : Volume) (h : History)
          → v.id ≡ n
          → created h ≡ ids
          → Keeps n ids (send_tags client conversions tags v h)
      send_tags-Keeps (ok tags) v h same e =
          replaced-Keeps v _ _ _ same (λ w r. answers _ v.id h w refl r ∙ same) e
      send_tags-Keeps (err m) v h same e = (same, e)

      tag_clone-Keeps :
          (tags : Attribute (List String)) (v : Volume) (h : History)
          → v.id ≡ n
          → created h ≡ ids
          → Keeps n ids (tag_clone client conversions tags v h)
      tag_clone-Keeps (known tags) v h same e =
          send_tags-Keeps (conversions.elements_as (known tags)) v h same e
      tag_clone-Keeps null v h same e = (same, e)
      tag_clone-Keeps unknown v h same e = (same, e)

      attach_clone-Keeps :
          (linode_id : Attribute ℕ) (v : Volume) (h : History)
          → v.id ≡ n
          → created h ≡ ids
          → Keeps n ids (attach_clone client conversions linode_id v h)
      attach_clone-Keeps (known l) v h same e =
          replaced-Keeps v _ _ _ same (λ w r. answers _ v.id h w refl r ∙ same) e
      attach_clone-Keeps null v h same e = (same, e)
      attach_clone-Keeps unknown v h same e = (same, e)

      pub finish_clone-Keeps :
          (model : VolumeResourceModel) (v : Volume) (h : History)
          → v.id ≡ n
          → created h ≡ ids
          → Keeps n ids (finish_clone client conversions model v h)
      finish_clone-Keeps model v h same e = then-Keeps _ _ (attach_clone-Keeps model.linode_id) (
          then-Keeps _ _ (resize_clone-Keeps model.size)
            (then-Keeps _ _ (tag_clone-Keeps model.tags) (kept-Keeps v _ _ _ same e)))
