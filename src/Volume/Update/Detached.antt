-- ===== src/Volume/Update/Detached.antt =====
-- A volume is attached, or deleted, only while it is detached.
use mathlib.Core.Path.{subst}
use terraform_provider_linod.Prelude.Runs.{
  Sure, Sure-done, Sure-after, Every, Kept, Kept-holds, Kept-explained, Kept-last, Kept-step,
  Kept-call, Kept-after, Kept-then, after, done, ◌>>=◌, or_fail,
}
use terraform_provider_linod.Prelude.{
  ℕ, String, Bool, true, false, ◌≡◌, refl, ap, sym, Option, none, List, Result, ok, ◌==◌, nat_eq,
  string_eq, list_eq, ◌&&◌, if◌then◌else◌,
}
use terraform_provider_linod.Helpers.Attributes.{
  Attribute, null, unknown, known, value, attribute_eq, is_null,
}
use terraform_provider_linod.Volume.{
  Call, attach_volume, delete_volume, History, Client, Conversions, handle_resize,
  detach_volume_and_wait, act, Ack,
}
use terraform_provider_linod.Volume.Semantics.{View, VolumeSemantics}
use terraform_provider_linod.Volume.Update.{
  Model, resize_unless, send_update, update_unless, detach_unless, attach_if, relink, merged,
  update_from, update, detach_before_delete, delete_from, delete,
}
use terraform_provider_linod.Volume.Update.Says.{Shows, Says, SaysLinode}
use terraform_provider_linod.Volume.Update.Reached.{detach-detaches, resize-reaches, update-reaches}

-- An attachment and a deletion are judged: the volume is detached.
abbrev pub WhileDetached : (History → View) → Call → History → Type 0
WhileDetached view (attach_volume n l) h = (view h).linode_id ≡ none
WhileDetached view (delete_volume n) h = (view h).linode_id ≡ none
WhileDetached view _ h = Unit

module _ {client : Client} {id : ℕ} {view : History → View}
    (semantics : VolumeSemantics client id view) (conversions : Conversions) where
  abbrev Allowed : Call → History → Type 0
  Allowed c h = WhileDetached view c h

  resize-Kept :
      (n size : ℕ) (h : History) → Every Allowed h → Kept Allowed (handle_resize client n size h)
  unfolding handle_resize
  resize-Kept n size h kept =
      Kept-step _ _ _ _ _ (tt, kept) (λ a e k. Kept-explained _ _ _ (Kept-last _ _ _ (tt, k)))

  detach-Kept :
      (n : ℕ) (h : History) → Every Allowed h → Kept Allowed (detach_volume_and_wait client n h)
  unfolding detach_volume_and_wait
  detach-Kept n h kept =
      Kept-step _ _ _ _ _ (tt, kept) (λ a e k. Kept-explained _ _ _ (Kept-last _ _ _ (tt, k)))

  resize_unless-Kept :
      (same : Bool) (n size : ℕ) (plan : Model) (h : History)
      → Every Allowed h
      → Kept Allowed (resize_unless client conversions same n size plan h)
  resize_unless-Kept true n size plan h kept = Kept-last _ _ _ kept
  resize_unless-Kept false n size plan h kept =
      Kept-then _ _ _ (resize-Kept n size h kept) (λ v k k1. Kept-last _ _ _ k1)

  send-Kept :
      (n : ℕ) (plan : Model) (tags : Option (List String)) (h : History)
      → Every Allowed h
      → Kept Allowed (send_update client conversions n plan tags h)
  send-Kept n plan tags h kept = Kept-step _ _ _ _ _ (tt, kept) (λ v e k. Kept-last _ _ _ k)

  send_if-Kept :
      (same : Bool) (n : ℕ) (plan : Model) (tags : Option (List String)) (h : History)
      → Every Allowed h
      → Kept Allowed ((if same then done plan else send_update client conversions n plan tags) h)
  send_if-Kept true n plan tags h kept = Kept-last _ _ _ kept
  send_if-Kept false n plan tags h kept = send-Kept n plan tags h kept

  update_unless-Kept :
      (same_tags same_label : Bool) (n : ℕ) (plan : Model) (h : History)
      → Every Allowed h
      → Kept Allowed (update_unless client conversions same_tags same_label n plan h)
  update_unless-Kept same_tags same_label n plan h kept =
      Kept-call _ _ _ _ kept (λ tags e k. send_if-Kept (same_tags && same_label) n plan tags h k)

  attach-Kept :
      (linode_id : Attribute ℕ) (n : ℕ) (plan : Model) (h : History)
      → (view h).linode_id ≡ none
      → Every Allowed h
      → Kept Allowed (attach_if client conversions linode_id n plan h)
  attach-Kept null n plan h e kept = Kept-last _ _ _ kept
  attach-Kept unknown n plan h e kept = Kept-last _ _ _ kept
  attach-Kept (known l) n plan h e kept =
      Kept-step _ _ _ _ _ (e, kept)
        (λ w f k. Kept-step _ _ _ _ _ (tt, k) (λ v g k1. Kept-last _ _ _ k1))

  unlinked-Kept :
      (plan : Model) (h : History)
      → Every Allowed h
      → Kept Allowed (
          after
            (λ p. attach_if client conversions p.linode_id id p)
            (detach_unless client conversions false id plan h))
  unlinked-Kept plan h kept =
      Kept-after _ (λ p k. (view k).linode_id ≡ none) _ _
        (Kept-then _ _ _ (detach-Kept id h kept) (λ v k k1. Kept-last _ _ _ k1))
        (Sure-after _ _ _ _ (detach-detaches semantics h)
          (λ v k changed. Sure-done _ _ _ (ap (λ u. u.linode_id) changed)))
        (λ p k k1 e. attach-Kept p.linode_id id p k e k1)

  relink-Kept :
      (same : Bool) (old : Attribute ℕ) (plan : Model) (h : History)
      → SaysLinode old (view h).linode_id
      → Every Allowed h
      → Kept Allowed (relink client conversions same old id plan h)
  unfolding after
  relink-Kept true old plan h says kept = Kept-last _ _ _ kept
  relink-Kept false null plan h says kept = attach-Kept plan.linode_id id plan h says kept
  relink-Kept false unknown plan h says kept = unlinked-Kept plan h kept
  relink-Kept false (known n) plan h says kept = unlinked-Kept plan h kept

  detached-Kept :
      (h : History)
      → Every Allowed h
      → Kept Allowed (detach_before_delete client conversions false id h)
  detached-Kept h kept = Kept-then _ _ _ (detach-Kept id h kept) (λ v k k1. Kept-last _ _ _ k1)

  detached-Sure :
      (h : History)
      → Sure (λ a k. (view k).linode_id ≡ none) (detach_before_delete client conversions false id h)
  detached-Sure h =
      Sure-after _ _ _ _ (detach-detaches semantics h)
        (λ v k changed. Sure-done _ _ _ (ap (λ u. u.linode_id) changed))

  module _ (reads : (t : List String) → conversions.elements_as (known t) ≡ ok t)
      (plan state : Model) where
    after_resize-Kept :
        (i : ℕ) (p : Model) (h : History)
        → i ≡ id
        → Says state.label (view h).label
        → Says state.tags (view h).tags
        → SaysLinode state.linode_id (view h).linode_id
        → Every Allowed h
        → Kept Allowed (
            after
              (λ updated.
                relink client conversions
                  (state.linode_id == updated.linode_id)
                  state.linode_id
                  i
                  updated
                >>= (λ linked. done (merged client conversions linked state)))
              (update_unless client conversions
                (state.tags == p.tags)
                (state.label == p.label)
                i
                p
                h))
    after_resize-Kept i p h same label tags linode kept = rw same (
        Kept-after _ _ _ _ (update_unless-Kept _ _ id p h kept)
          (update-reaches semantics conversions reads state.tags state.label p _ _ h refl refl tags
            label)
          (λ updated k k1 retitles.
            Kept-then _ _ _
              (relink-Kept _ state.linode_id updated k
                (subst (SaysLinode state.linode_id) (sym (ap (λ u. u.linode_id) retitles.0)) linode)
                k1)
              (λ linked j k2. Kept-last _ _ _ k2)))

    update_from-Kept :
        (h : History)
        → Shows state (view h)
        → Every Allowed h
        → Kept Allowed (update_from client conversions plan state id h)
    update_from-Kept h shows kept =
        Kept-after _ _ _ _ (resize_unless-Kept _ id (value 0 plan.size) plan h kept)
          (resize-reaches semantics conversions state.size plan _ h refl shows.0)
          (λ r k k1 resized.
            after_resize-Kept r.0 r.1 k resized.0
              (subst (Says state.label) (sym (ap (λ u. u.label) resized.2)) shows.1)
              (subst (Says state.tags) (sym (ap (λ u. u.tags) resized.2)) shows.2)
              (subst (SaysLinode state.linode_id) (sym (ap (λ u. u.linode_id) resized.2)) shows.3)
              k1)

    undeleted-Kept :
        (r : Result String Ack × History)
        → Kept Allowed r
        → Sure (λ a k. (view k).linode_id ≡ none) r
        → Kept Allowed
            (after (λ a. or_fail "Failed to Delete Volume" (act client (delete_volume id))) r)
    undeleted-Kept r kept sure =
        Kept-after _ _ _ _ kept sure (λ a k k1 e. Kept-explained _ _ _ (Kept-last _ _ _ (e, k1)))

    delete_if-Kept :
        (old : Attribute ℕ) (h : History)
        → SaysLinode old (view h).linode_id
        → Every Allowed h
        → Kept Allowed (
            after
              (λ a. or_fail "Failed to Delete Volume" (act client (delete_volume id)))
              (detach_before_delete client conversions (is_null old) id h))
    delete_if-Kept null h says kept = undeleted-Kept _ (Kept-last _ _ _ kept) (Sure-done _ _ _ says)
    delete_if-Kept unknown h says kept = undeleted-Kept _ (detached-Kept h kept) (detached-Sure h)
    delete_if-Kept (known n) h says kept = undeleted-Kept _ (detached-Kept h kept) (detached-Sure h)

    same_id :
        (i : ℕ)
        → conversions.atoi (value "" state.id) ≡ ok id
        → conversions.atoi (value "" state.id) ≡ ok i
        → id ≡ i
    same_id i e f = cc

    -- If the API carries out its changes of the volume, the framework gives the tags of a known set, and
    -- the volume has what the state says, then whatever fails, an update attaches the volume and a
    -- deletion deletes it only while it is detached.
    pub update_and_delete_detached :
        (h : History)
        → conversions.atoi (value "" state.id) ≡ ok id
        → Shows state (view h)
        → Every Allowed h
        → Every Allowed (update client conversions plan state h).1
          × Every Allowed (delete client conversions state h).1
    unfolding update delete
    update_and_delete_detached h e shows kept = (
      Kept-holds _ _ (
          Kept-call _ _ _ _ kept (λ i f k.
            subst (λ n. Kept Allowed (update_from client conversions plan state n h))
              (same_id i e f) (update_from-Kept h shows k))),
      Kept-holds _ _ (
          Kept-call _ _ _ _ kept (λ i f k.
            subst (λ n. Kept Allowed (delete_from client conversions state n h)) (same_id i e f)
              (delete_if-Kept state.linode_id h shows.3 k))),
    )
