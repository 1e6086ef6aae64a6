-- ===== src/Volume/Read/Refreshed.antt =====
-- A read shows the volume, and an update after it brings the volume to the plan.
use terraform_provider_linod.Prelude.Runs.{
  Sure, Sure-holds, Sure-fail, Sure-done, Sure-call, Sure-explained, done, explained,
}
use terraform_provider_linod.Prelude.{
  ℕ, String, Bool, true, false, ◌≡◌, refl, ap, inl, inr, Option, none, some, List, ◌∷◌, Result, ok,
  err, if◌then◌else◌, ◌==◌, string_eq,
}
use terraform_provider_linod.Helpers.Attributes.{
  known, value, keep_or_update_value, int_pointer_value_with_default,
}
use terraform_provider_linod.Volume.{
  Volume, VolumeResourceModel, get_volume, History, Client, Conversions, flatten_volume,
}
use terraform_provider_linod.Volume.Semantics.{View, VolumeSemantics}
use terraform_provider_linod.Volume.Update.{update}
use terraform_provider_linod.Volume.Update.Says.{Shows, SaysLinode}
use terraform_provider_linod.Volume.Update.Reached.{update_reaches}
use terraform_provider_linod.Volume.Read.{found_volume, read_known, read}

abbrev pub view_of : Volume → View
view_of v = record { size = v.size; label = v.label; tags = v.tags; linode_id = v.linode_id }

-- The API tells the volume as it is.
abbrev pub TellsVolume : Client → ℕ → (History → View) → Type 0
TellsVolume client id view =
    (h : History) (v : Volume)
    → client.answers_volume (get_volume id) h ≡ ok v
    → (v.id ≡ id) × (view (get_volume id ∷ h) ≡ view_of v)

linode-SaysLinode :
    (linode_id seen : Option ℕ)
    → seen ≡ linode_id
    → SaysLinode (int_pointer_value_with_default linode_id) seen
linode-SaysLinode none seen e = inr (refl, e)
linode-SaysLinode (some n) seen e = inl e

module _ (client : Client) (conversions : Conversions) (is_not_found : String → Bool) (id : ℕ)
    (view : History → View) (tells : TellsVolume client id view)
    (reads_back : conversions.atoi (conversions.itoa id) ≡ ok id)
    (state : VolumeResourceModel) where
  abbrev Refreshed : Option VolumeResourceModel → History → Type 0
  Refreshed none k = Unit
  Refreshed (some m) k = (conversions.atoi (value "" m.id) ≡ ok id) × Shows m (view k)

  flattened-Refreshed :
      (v : Volume) (k : History)
      → v.id ≡ id
      → view k ≡ view_of v
      → Refreshed (some (flatten_volume conversions state v false)) k
  unfolding flatten_volume keep_or_update_value
  flattened-Refreshed v k same e = (
    (rw same reads_back),
    (
      ap (λ (u : View). u.size) e,
      ap (λ (u : View). u.label) e,
      ap (λ (u : View). u.tags) e,
      linode-SaysLinode v.linode_id _ (ap (λ (u : View). u.linode_id) e),
    ),
  )

  missing-Refreshed :
      (missing : Bool) (e : String) (h : History)
      → Sure Refreshed
          (if missing then (ok none, h) else explained "Failed to Get the Volume" (err e, h))
  missing-Refreshed true e h = Sure-done _ _ _ tt
  missing-Refreshed false e h = Sure-explained _ _ _ (Sure-fail _ _ _)

  found-Refreshed :
      (n : ℕ) (answer : Result String Volume) (h : History)
      → n ≡ id
      → client.answers_volume (get_volume n) h ≡ answer
      → Sure Refreshed
          (found_volume client conversions is_not_found state (answer, get_volume n ∷ h))
  found-Refreshed n (ok v) h same e =
      let t = tells h v (cc) in
      Sure-done _ _ _ (flattened-Refreshed v (get_volume n ∷ h) t.0 (rw same t.1))
  found-Refreshed n (err e) h same f = missing-Refreshed (is_not_found e) e _

  known-Refreshed :
      (empty : Bool) (h : History)
      → conversions.atoi (value "" state.id) ≡ ok id
      → Sure Refreshed
          ((if empty then done none else read_known client conversions is_not_found state) h)
  known-Refreshed true h mine = Sure-done _ _ _ tt
  known-Refreshed false h mine = Sure-call _ _ _ _ (λ n e. found-Refreshed n _ h (cc) refl)

  read-Refreshed :
      (h : History)
      → conversions.atoi (value "" state.id) ≡ ok id
      → Sure Refreshed (read client conversions is_not_found state h)
  unfolding read
  read-Refreshed h mine = known-Refreshed (value "" state.id == "") h mine

-- If the API tells the volume as it is and carries out its changes, the framework gives the tags of a known
-- set, and an identifier is read back as it was written, then after a read that saves a state, and an
-- update from that state that succeeds, the volume has what the plan says, whatever the state before the
-- read said: every known size, label and set of tags, and it is attached as planned.
pub read-update_reaches :
    (client : Client) (conversions : Conversions) (is_not_found : String → Bool) (id : ℕ)
    (view : History → View) (state plan m n : VolumeResourceModel) (h k l : History)
    → VolumeSemantics client id view
    → TellsVolume client id view
    → ((t : List String) → conversions.elements_as (known t) ≡ ok t)
    → conversions.atoi (conversions.itoa id) ≡ ok id
    → conversions.atoi (value "" state.id) ≡ ok id
    → read client conversions is_not_found state h ≡ (ok (some m), k)
    → update client conversions plan m k ≡ (ok n, l)
    → Shows plan (view l)
read-update_reaches client conversions is_not_found id view state plan m n h k l semantics tells
      elements reads_back mine first second =
    let seen =
      Sure-holds _
        (read-Refreshed client conversions is_not_found id view tells reads_back state h mine)
        first in
    update_reaches semantics conversions elements plan m k l n seen.0 seen.1 second
