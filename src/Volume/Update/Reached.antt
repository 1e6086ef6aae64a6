-- ===== src/Volume/Update/Reached.antt =====
-- An update brings the volume to the plan.
use mathlib.Core.Path.{subst}
use terraform_provider_linod.Prelude.Runs.{
  Sure, Sure-holds, Sure-done, Sure-fail, Sure-step, Sure-last, Sure-after, Sure-explained,
  Sure-map, after, done, ◌>>=◌,
}
use terraform_provider_linod.Prelude.{
  ℕ, String, Bool, true, false, ◌≡◌, refl, ap, sym, ◌∙◌, inl, Option, none, some, List, Result, ok,
  err, ◌==◌, ==_iff, nat_eq, string_eq, list_eq, arith,
}
use terraform_provider_linod.Helpers.Attributes.{
  Attribute, null, unknown, known, value, attribute_eq,
}
use terraform_provider_linod.Volume.{
  History, Client, Conversions, handle_resize, detach_volume_and_wait,
}
use terraform_provider_linod.Volume.Semantics.{View, VolumeSemantics, retagged}
use terraform_provider_linod.Volume.Update.{
  Model, resize_unless, send_update, update_unless, new_tags, given_tags, detach_unless, attach_if,
  relink, merged, update_from, update,
}
use terraform_provider_linod.Volume.Update.Says.{
  Says, SaysLinode, Shows, Refined-trans, Says-Refined, SaysLinode-Refined, Says-value, Says-equal,
  IsFrom, same-IsFrom, flattened-IsFrom,
}

module _ {client : Client} {id : ℕ} {view : History → View}
    (semantics : VolumeSemantics client id view) where
  handle_resize-resizes :
      (size : ℕ) (h : History)
      → Sure
          (λ v k. (view k ≡ record (view h) { size = size }) × (v.id ≡ id))
          (handle_resize client id size h)
  unfolding handle_resize
  handle_resize-resizes size h =
      Sure-step _ _ _ _ _
        (λ a e. Sure-explained _ _ _ (Sure-last _ _ _ (λ v f. semantics.resized size h a v e f)))

  pub detach-detaches :
      (h : History)
      → Sure
          (λ v k. view k ≡ record (view h) { linode_id = none })
          (detach_volume_and_wait client id h)
  unfolding detach_volume_and_wait
  detach-detaches h =
      Sure-step _ _ _ _ _
        (λ a e. Sure-explained _ _ _ (Sure-last _ _ _ (λ v f. semantics.detached h a v e f)))

  module _ (conversions : Conversions) where
    pub resize-reaches :
        (old : Attribute ℕ) (plan : Model) (same : Bool) (h : History)
        → (old == plan.size) ≡ same
        → Says old (view h).size
        → Sure
            (λ r k.
              (r.0 ≡ id)
              × IsFrom plan r.1
              × (view k ≡ record (view h) { size = (view k).size })
              × Says plan.size (view k).size)
            (resize_unless client conversions same id (value 0 plan.size) plan h)
    resize-reaches old plan true h e says =
        Sure-done _ _ _ (refl, same-IsFrom plan, refl, Says-equal old plan.size _ e says)
    resize-reaches old plan false h e says =
        Sure-after _ _ _ _ (handle_resize-resizes (value 0 plan.size) h) (λ v k resized.
          Sure-done _ _ _ (
            resized.1,
            flattened-IsFrom conversions plan v,
            resized.0 ∙ ap (λ n. record (view h) { size = n }) (sym (ap (λ w. w.size) resized.0)),
            subst (Says plan.size) (sym (ap (λ w. w.size) resized.0)) (Says-value 0 plan.size),
          ))

    abbrev Retitles : View → Model → Model → View → Type 0
    Retitles before plan p now =
        (now ≡ record before { label = now.label; tags = now.tags })
        × IsFrom plan p
        × Says plan.label now.label
        × Says plan.tags now.tags

    send-reaches :
        (plan : Model) (tags : Option (List String)) (h : History)
        → Says plan.tags (retagged tags (view h).tags)
        → Sure
            (λ p k. Retitles (view h) plan p (view k))
            (send_update client conversions id plan tags h)
    send-reaches plan tags h says = Sure-step _ _ _ _ _ (λ v e.
        let changed =
          semantics.updated (record { label = value "" plan.label; tags = tags }) h v e in
        Sure-done _ _ _ (
          changed ∙ ap (λ w. record (view h) { label = w.label; tags = w.tags }) (sym changed),
          flattened-IsFrom conversions plan v,
          subst (Says plan.label) (sym (ap (λ w. w.label) changed)) (Says-value "" plan.label),
          subst (Says plan.tags) (sym (ap (λ w. w.tags) changed)) says,
        ))

    module _ (reads : (t : List String) → conversions.elements_as (known t) ≡ ok t) where
      read-Says :
          (tags : Attribute (List String)) (t : List String)
          → conversions.elements_as tags ≡ ok t
          → Says tags t
      read-Says null t e = tt
      read-Says unknown t e = tt
      read-Says (known s) t e = ground (arith, reads s, e)

      given-reaches :
          (answer : Result String (List String)) (plan : Model) (h : History)
          → ((t : List String) → answer ≡ ok t → Says plan.tags t)
          → Sure
              (λ p k. Retitles (view h) plan p (view k))
              (after (λ tags. send_update client conversions id plan tags) (given_tags answer, h))
      unfolding after
      given-reaches (ok t) plan h says = send-reaches plan (some t) h (says t refl)
      given-reaches (err m) plan h says = Sure-fail _ _ _

      new_tags-reaches :
          (tags : Attribute (List String)) (plan : Model) (h : History)
          → plan.tags ≡ tags
          → Sure
              (λ p k. Retitles (view h) plan p (view k))
              (after
                (λ t. send_update client conversions id plan t)
                (new_tags client conversions false tags, h))
      unfolding after
      new_tags-reaches null plan h e =
          send-reaches plan none h (subst (λ a. Says a (view h).tags) (sym e) tt)
      new_tags-reaches unknown plan h e =
          given-reaches _ plan h (λ t f. subst (λ a. Says a t) (sym e) tt)
      new_tags-reaches (known s) plan h e =
          given-reaches _ plan h (λ t f. subst (λ a. Says a t) (sym e) (read-Says (known s) t f))

      pub update-reaches :
          (old_tags : Attribute (List String)) (old_label : Attribute String) (plan : Model)
          (same_tags same_label : Bool) (h : History)
          → (old_tags == plan.tags) ≡ same_tags
          → (old_label == plan.label) ≡ same_label
          → Says old_tags (view h).tags
          → Says old_label (view h).label
          → Sure
              (λ p k. Retitles (view h) plan p (view k))
              (update_unless client conversions same_tags same_label id plan h)
      unfolding after
      update-reaches old_tags old_label plan true true h e f says_tags says_label =
          Sure-done _ _ _ (
            refl,
            same-IsFrom plan,
            Says-equal old_label plan.label _ f says_label,
            Says-equal old_tags plan.tags _ e says_tags,
          )
      update-reaches old_tags old_label plan true false h e f says_tags says_label =
          send-reaches plan none h (Says-equal old_tags plan.tags _ e says_tags)
      update-reaches old_tags old_label plan false same_label h e f says_tags says_label =
          new_tags-reaches plan.tags plan h refl

    abbrev Relinks : View → Attribute ℕ → View → Type 0
    Relinks before planned now =
        (now ≡ record before { linode_id = now.linode_id }) × SaysLinode planned now.linode_id

    attach-reaches :
        (linode_id : Attribute ℕ) (plan : Model) (h : History)
        → (view h).linode_id ≡ none
        → Sure
            (λ p k. Relinks (view h) linode_id (view k))
            (attach_if client conversions linode_id id plan h)
    attach-reaches null plan h e = Sure-done _ _ _ (refl, e)
    attach-reaches unknown plan h e = Sure-done _ _ _ (refl, tt)
    attach-reaches (known n) plan h e = Sure-step _ _ _ _ _ (λ w f. Sure-step _ _ _ _ _ (λ v g.
        let changed = semantics.attached n h w v f g in
        Sure-done _ _ _ (
          changed ∙ ap (λ u. record (view h) { linode_id = u.linode_id }) (sym changed),
          inl (ap (λ u. u.linode_id) changed),
        )))

    unlinked-reaches :
        (plan : Model) (h : History)
        → Sure
            (λ p k. Relinks (view h) plan.linode_id (view k))
            (after
              (λ p. attach_if client conversions p.linode_id id p)
              (detach_unless client conversions false id plan h))
    unlinked-reaches plan h =
        Sure-after _ (λ p k. (view k ≡ record (view h) { linode_id = none }) × IsFrom plan p) _ _
          (Sure-after _ _ _ _ (detach-detaches h)
            (λ v k changed. Sure-done _ _ _ (changed, flattened-IsFrom conversions plan v)))
          (λ p k known_none.
            Sure-map _ _ _
              (λ q j relinks. (
                relinks.0
                    ∙ ap {A = View} (λ u. record u { linode_id = (view j).linode_id }) known_none.0,
                SaysLinode-Refined plan.linode_id p.linode_id _ known_none.1.2 relinks.1,
              ))
              (attach-reaches p.linode_id p k (ap (λ u. u.linode_id) known_none.0)))

    relink-reaches :
        (old : Attribute ℕ) (plan : Model) (same : Bool) (h : History)
        → (old == plan.linode_id) ≡ same
        → SaysLinode old (view h).linode_id
        → Sure
            (λ p k. Relinks (view h) plan.linode_id (view k))
            (relink client conversions same old id plan h)
    unfolding after
    relink-reaches old plan true h e says =
        Sure-done _ _ _ (
          refl,
          subst (λ x. SaysLinode x (view h).linode_id) ((==_iff old plan.linode_id).0 e) says,
        )
    relink-reaches null plan false h e says = attach-reaches plan.linode_id plan h says
    relink-reaches unknown plan false h e says = unlinked-reaches plan h
    relink-reaches (known n) plan false h e says = unlinked-reaches plan h

    module _ (reads : (t : List String) → conversions.elements_as (known t) ≡ ok t)
        (plan state : Model) where
      after_resize-reaches :
          (i : ℕ) (p : Model) (h : History)
          → i ≡ id
          → IsFrom plan p
          → Says plan.size (view h).size
          → Says state.label (view h).label
          → Says state.tags (view h).tags
          → SaysLinode state.linode_id (view h).linode_id
          → Sure
              (λ m k. Shows plan (view k))
              (after
                (λ updated.
                  relink client conversions
                    (state.linode_id == updated.linode_id)
                    state.linode_id
                    i
                    updated
                  >>= (λ linked. done (merged client conversions linked state)))
                (update_unless client conversions
                  (state.tags == p.tags)
                  (state.label == p.label)
                  i
                  p
                  h))
      after_resize-reaches i p h same from size label tags linode = rw same (
          Sure-after _ _ _ _
            (update-reaches reads state.tags state.label p _ _ h refl refl tags label)
            (λ updated k retitles.
              Sure-after _ _ _ _
                (relink-reaches state.linode_id updated _ k refl (
                  subst (SaysLinode state.linode_id) (sym (ap (λ u. u.linode_id) retitles.0))
                    linode))
                (λ linked j relinks. Sure-done _ _ _ (
                  subst (Says plan.size)
                      (sym (ap (λ u. u.size) relinks.0 ∙ ap (λ u. u.size) retitles.0)) size,
                  Says-Refined plan.label p.label _ from.0
                      (subst (Says p.label) (sym (ap (λ u. u.label) relinks.0)) retitles.2),
                  Says-Refined plan.tags p.tags _ from.1
                      (subst (Says p.tags) (sym (ap (λ u. u.tags) relinks.0)) retitles.3),
                  SaysLinode-Refined plan.linode_id updated.linode_id _
                      (Refined-trans from.2 retitles.1.2) relinks.1,
                ))))

      update_known-reaches :
          (answer : Result String ℕ) (h : History)
          → answer ≡ ok id
          → Shows state (view h)
          → Sure
              (λ m k. Shows plan (view k))
              (after (λ i. update_from client conversions plan state i) (answer, h))
      unfolding after
      update_known-reaches answer h e shows = rw e (
          Sure-after _ _ _ _ (resize-reaches state.size plan _ h refl shows.0) (λ r k resized.
            after_resize-reaches r.0 r.1 k resized.0 resized.1 resized.3
              (subst (Says state.label) (sym (ap (λ u. u.label) resized.2)) shows.1)
              (subst (Says state.tags) (sym (ap (λ u. u.tags) resized.2)) shows.2)
              (subst (SaysLinode state.linode_id) (sym (ap (λ u. u.linode_id) resized.2)) shows.3)))

      -- If the API carries out its changes of the volume, the framework gives the tags of a known set,
      -- and the volume has what the state says, then after an update that succeeds it has what the plan
      -- says: every known size, label and set of tags, and it is attached as planned.
      pub update_reaches :
          (h k : History) (m : Model)
          → conversions.atoi (value "" state.id) ≡ ok id
          → Shows state (view h)
          → update client conversions plan state h ≡ (ok m, k)
          → Shows plan (view k)
      unfolding update
      update_reaches h k m e shows run =
          Sure-holds (λ m k. Shows plan (view k)) (update_known-reaches _ h e shows) run
