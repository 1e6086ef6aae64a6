-- ===== src/Volume/Saved.antt =====
-- The state that the operations of a volume save: it has no unknown value, and it keeps the plan.
use mathlib.Core.Path.{subst}
use terraform_provider_linod.Prelude.Runs.{
  Sure, Sure-holds, Sure-done, Sure-step, Sure-call, Sure-after, Sure-any, Sure-map, done,
}
use terraform_provider_linod.Prelude.{
  ℕ, String, Bool, true, false, ◌≡◌, refl, ap, Option, none, some, List, ok, ◌==◌, nat_eq,
  string_eq, list_eq, ◌&&◌, if◌then◌else◌,
}
use terraform_provider_linod.Helpers.Attributes.{
  Attribute, null, unknown, known, value, is_null, attribute_eq,
}
use terraform_provider_linod.Volume.{
  Volume, History, Client, Conversions, copy_from, handle_resize, detach_volume_and_wait,
}
use terraform_provider_linod.Volume.Create.{saved, by_source, create}
use terraform_provider_linod.Volume.Update.{
  Model, resize_unless, send_update, update_unless, detach_unless, attach_if, relink, merged,
  update,
}
use terraform_provider_linod.Volume.Merged.{
  IsSettled, IsSaved, Keeps, Keeps-refl, Keeps-trans, flatten_volume-Keeps, copy_from-Keeps,
  copy_from-IsSaved, flatten_volume-IsSaved, with_id-Merges,
}

abbrev value_or : Model → Option Model → Model
value_or m none = m
value_or m (some n) = n

module _ (client : Client) (conversions : Conversions) where
  resize-Keeps :
      (same : Bool) (id size : ℕ) (plan : Model) (h : History)
      → Sure (λ r k. Keeps plan r.1) (resize_unless client conversions same id size plan h)
  resize-Keeps true id size plan h = Sure-done _ _ _ (Keeps-refl plan)
  resize-Keeps false id size plan h =
      Sure-after _ _ _ _ (Sure-any (handle_resize client id size h))
        (λ v k any. Sure-done _ _ _ (flatten_volume-Keeps conversions plan v))

  send-Keeps :
      (same : Bool) (id : ℕ) (plan : Model) (tags : Option (List String)) (h : History)
      → Sure
          (λ p k. Keeps plan p)
          ((if same then done plan else send_update client conversions id plan tags) h)
  send-Keeps true id plan tags h = Sure-done _ _ _ (Keeps-refl plan)
  send-Keeps false id plan tags h =
      Sure-step _ _ _ _ _ (λ v e. Sure-done _ _ _ (flatten_volume-Keeps conversions plan v))

  update_unless-Keeps :
      (same_tags same_label : Bool) (id : ℕ) (plan : Model) (h : History)
      → Sure (λ p k. Keeps plan p) (update_unless client conversions same_tags same_label id plan h)
  update_unless-Keeps same_tags same_label id plan h =
      Sure-call _ _ _ _ (λ tags e. send-Keeps (same_tags && same_label) id plan tags h)

  detach-Keeps :
      (same : Bool) (id : ℕ) (plan : Model) (h : History)
      → Sure (λ p k. Keeps plan p) (detach_unless client conversions same id plan h)
  detach-Keeps true id plan h = Sure-done _ _ _ (Keeps-refl plan)
  detach-Keeps false id plan h =
      Sure-after _ _ _ _ (Sure-any (detach_volume_and_wait client id h))
        (λ v k any. Sure-done _ _ _ (flatten_volume-Keeps conversions plan v))

  attach-Keeps :
      (linode_id : Attribute ℕ) (id : ℕ) (plan : Model) (h : History)
      → Sure (λ p k. Keeps plan p) (attach_if client conversions linode_id id plan h)
  attach-Keeps null id plan h = Sure-done _ _ _ (Keeps-refl plan)
  attach-Keeps unknown id plan h = Sure-done _ _ _ (Keeps-refl plan)
  attach-Keeps (known n) id plan h = Sure-step _ _ _ _ _ (λ w e.
      Sure-step _ _ _ _ _ (λ v f. Sure-done _ _ _ (flatten_volume-Keeps conversions plan v)))

  relink-Keeps :
      (same : Bool) (old : Attribute ℕ) (id : ℕ) (plan : Model) (h : History)
      → Sure (λ p k. Keeps plan p) (relink client conversions same old id plan h)
  relink-Keeps true old id plan h = Sure-done _ _ _ (Keeps-refl plan)
  relink-Keeps false old id plan h =
      Sure-after _ _ _ _ (detach-Keeps (is_null old) id plan h) (λ p k keeps.
        Sure-map _ _ _ (λ q j more. Keeps-trans plan p q keeps more)
          (attach-Keeps p.linode_id id p k))

  merged-Merges :
      (plan p state : Model)
      → IsSaved state
      → Keeps plan p
      → IsSaved (merged client conversions p state) × Keeps plan (merged client conversions p state)
  merged-Merges plan p state s keeps =
      with_id-Merges plan state.id (copy_from p state true)
        (value "" (copy_from p state true).id == "") s.1 (copy_from-IsSaved p state s)
        (Keeps-trans plan p (copy_from p state true) keeps (copy_from-Keeps p state))

  update-Merges :
      (plan state : Model) (h : History)
      → IsSaved state
      → Sure (λ m k. IsSaved m × Keeps plan m) (update client conversions plan state h)
  unfolding update
  update-Merges plan state h s = Sure-call _ _ _ _ (λ id e.
      Sure-after _ _ _ _ (resize-Keeps _ id (value 0 plan.size) plan h) (λ r k resized.
        Sure-after _ _ _ _ (update_unless-Keeps _ _ r.0 r.1 k) (λ p j updated.
          Sure-after _ _ _ _ (relink-Keeps _ state.linode_id r.0 p j) (λ q i linked.
            Sure-done _ _ _ (
              merged-Merges plan q state s
                (Keeps-trans plan p q (Keeps-trans plan r.1 p resized updated) linked))))))

  saved-Merges :
      (plan m : Model) (v : Option Volume)
      → IsSettled plan.source_volume_id
      → saved client conversions plan v ≡ some m
      → IsSaved m × Keeps plan m
  saved-Merges plan m none settled e = cc
  saved-Merges plan m (some v) settled e =
      let f = flatten_volume-IsSaved conversions plan v settled in
      subst (λ n. IsSaved n × Keeps plan n) (ap (value_or m) e)
        (
          (f.0, refl, f.2, f.3, f.4, f.5, f.6, f.7, f.8, f.9),
          flatten_volume-Keeps conversions plan v,
        )

  -- If a creation and an update save a state for a plan, the source of the new volume is not unknown, and
  -- the state before the update has no unknown attribute, then neither saved state has one, and every
  -- attribute but the identifier that the plan has, known or null, is in both as it is in the plan.
  pub create-update-IsSaved :
      (plan state m n : Model) (h k : History)
      → IsSettled plan.source_volume_id
      → IsSaved state
      → (create client conversions plan h).0.0 ≡ some m
      → update client conversions plan state h ≡ (ok n, k)
      → (IsSaved m × Keeps plan m) × (IsSaved n × Keeps plan n)
  unfolding create
  create-update-IsSaved plan state m n h k settled s e f = (
    saved-Merges plan m (by_source client conversions plan.source_volume_id plan h).0.0 settled e,
    Sure-holds (λ m k. IsSaved m × Keeps plan m) (update-Merges plan state h s) f,
  )
