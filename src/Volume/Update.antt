-- ===== src/Volume/Update.antt =====
-- `Update` and `Delete` of linode/volume/framework_resource.go. An error ends an operation, and nothing
-- is saved.
pub mod Says
pub mod Reached
pub mod Detached
use terraform_provider_linod.Prelude.Runs.{fail, done, lift, ◌>>=◌, ◌>>◌, or_fail}
use terraform_provider_linod.Prelude.{
  ℕ, String, Bool, true, false, not, Option, none, some, List, Result, ok, err, ◌==◌, ◌&&◌, nat_eq,
  string_eq, list_eq, if◌then◌else◌,
}
use terraform_provider_linod.Helpers.Attributes.{
  Attribute, null, unknown, known, is_null, value, attribute_eq,
}
use terraform_provider_linod.Volume.{
  Volume, VolumeResourceModel, VolumeUpdateOptions, update_volume, attach_volume,
  wait_for_volume_linode_id, delete_volume, Run, Ack, Client, Conversions, flatten_volume,
  copy_from, act, ask, handle_resize, detach_volume_and_wait,
}

abbrev pub Model : Type 0
Model = VolumeResourceModel

abbrev pub given_tags : Result String (List String) → Result String (Option (List String))
given_tags (ok t) = ok (some t)
given_tags (err e) = err e

module _ (client : Client) (conversions : Conversions) where
  abbrev pub flattened : Model → Volume → Model
  flattened plan v = flatten_volume conversions plan v true

  -- The identifier and the plan after a resize.
  abbrev pub resize_unless : Bool → ℕ → ℕ → Model → Run (ℕ × Model)
  resize_unless true id size plan = done (id, plan)
  resize_unless false id size plan = do
    v ← handle_resize client id size
    done (v.id, flattened plan v)

  -- A set that is null leaves the pointer to the tags nil.
  abbrev pub new_tags : Bool → Attribute (List String) → Result String (Option (List String))
  new_tags true tags = ok none
  new_tags false null = ok none
  new_tags false unknown = given_tags (conversions.elements_as unknown)
  new_tags false (known t) = given_tags (conversions.elements_as (known t))

  abbrev pub send_update : ℕ → Model → Option (List String) → Run Model
  send_update id plan tags = do
    v ←
        or_fail "Failed to Update Volume"
          (ask client (update_volume id (record { label = value "" plan.label; tags = tags })))
    done (flattened plan v)

  -- The call is made where the tags or the label differ.
  abbrev pub update_unless : Bool → Bool → ℕ → Model → Run Model
  update_unless same_tags same_label id plan = do
    tags ← lift (new_tags same_tags plan.tags)
    if same_tags && same_label then done plan else send_update id plan tags

  abbrev pub detach_unless : Bool → ℕ → Model → Run Model
  detach_unless true id plan = done plan
  detach_unless false id plan = do v ← detach_volume_and_wait client id; done (flattened plan v)

  -- The config that is attached to is 0.
  abbrev pub attach_if : Attribute ℕ → ℕ → Model → Run Model
  attach_if null id plan = done plan
  attach_if unknown id plan = done plan
  attach_if (known linode_id) id plan = do
    or_fail "Failed to Attach Volume" (ask client (attach_volume id linode_id))
    v ←
        or_fail "Failed to Wait for Volume Attached"
          (ask client (wait_for_volume_linode_id id (some linode_id)))
    done (flattened plan v)

  abbrev pub relink : Bool → Attribute ℕ → ℕ → Model → Run Model
  relink true old id plan = done plan
  relink false old id plan = do
    detached_plan ← detach_unless (is_null old) id plan
    attach_if detached_plan.linode_id id detached_plan

  -- What is saved: an empty identifier is taken from the state.
  abbrev pub merged : Model → Model → Model
  merged plan state =
      let copied = copy_from plan state true in
      if value "" copied.id == "" then record copied { id = state.id } else copied

  abbrev pub update_from : Model → Model → ℕ → Run Model
  update_from plan state id = do
    resized ← resize_unless (state.size == plan.size) id (value 0 plan.size) plan
    updated ←
        update_unless (state.tags == resized.1.tags) (state.label == resized.1.label) resized.0
          resized.1
    linked ← relink (state.linode_id == updated.linode_id) state.linode_id resized.0 updated
    done (merged linked state)

  unfoldable pub update : Model → Model → Run Model
  update plan state = do id ← lift (conversions.atoi (value "" state.id)); update_from plan state id

  abbrev pub detach_before_delete : Bool → ℕ → Run Ack
  detach_before_delete true id = done tt
  detach_before_delete false id = do detach_volume_and_wait client id; done tt

  abbrev pub delete_from : Model → ℕ → Run Ack
  delete_from state id = do
    detach_before_delete (is_null state.linode_id) id
    or_fail "Failed to Delete Volume" (act client (delete_volume id))

  unfoldable pub delete : Model → Run Ack
  delete state = do id ← lift (conversions.atoi (value "" state.id)); delete_from state id
