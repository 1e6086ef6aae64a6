-- ===== src/Volume/Tests/Refresh.antt =====
-- A read of a volume and an update after it, at concrete inputs.
use terraform_provider_linod.Prelude.Runs.{after, explained}
use terraform_provider_linod.Prelude.{
  String, Bool, false, ◌≡◌, refl, sym, ap, some, [], ◌∷◌, Result, ok, err, nat_eq, string_eq,
  list_eq,
}
use terraform_provider_linod.Helpers.Attributes.{known, keep_or_update_value}
use terraform_provider_linod.Volume.{
  Volume, VolumeResourceModel, Call, get_volume, History, Client, flatten_volume, copy_from,
  handle_resize, detach_volume_and_wait,
}
use terraform_provider_linod.Volume.Semantics.{View, VolumeSemantics}
use terraform_provider_linod.Volume.Update.{update}
use terraform_provider_linod.Volume.Update.Says.{Shows}
use terraform_provider_linod.Volume.Read.{read}
use terraform_provider_linod.Volume.Read.Refreshed.{view_of, TellsVolume, read-update_reaches}
use terraform_provider_linod.Volume.Tests.{
  volume_with, client, conversions, id_of, view, state, plan, saved_state, reads,
}

-- A client that tells the volume as it is.
abbrev tell : Call → History → Result String Volume
tell (get_volume n) h = ok (record (volume_with 7) {
  size = (view h).size;
  label = (view h).label;
  tags = (view h).tags;
  linode_id = (view h).linode_id;
})
tell c h = client.answers_volume c h

abbrev telling : Client
telling = record client { answers_volume = tell }

telling_semantics : VolumeSemantics telling 7 view
telling_semantics = record {
  resized = λ n h a v e f. (refl, sym (ap id_of f));
  updated = λ o h v e. refl;
  detached = λ h a v e f. refl;
  attached = λ n h w v e f. refl;
}

abbrev view_in : Result String Volume → View
view_in (ok v) = view_of v
view_in (err e) = view []

tells : TellsVolume telling 7 view
tells h v e = (sym (ap id_of e), ap view_in e)

-- The state before the read, which is out of date.
abbrev stale : VolumeResourceModel
stale = record state { size = known 10; label = known "old"; tags = known ("old" ∷ []) }

is_missing : String → Bool
is_missing e = false

read_saves : read telling conversions is_missing stale [] ≡ (ok (some state), get_volume 7 ∷ [])
unfolding read after explained flatten_volume keep_or_update_value
read_saves = refl

refreshed_saves : (update telling conversions plan state (get_volume 7 ∷ [])).0 ≡ ok saved_state
unfolding update handle_resize detach_volume_and_wait after explained flatten_volume copy_from
    keep_or_update_value
refreshed_saves = refl

read-update_reaches_example :
    Shows plan (view (update telling conversions plan state (get_volume 7 ∷ [])).1)
read-update_reaches_example =
    read-update_reaches telling conversions is_missing 7 view stale plan state saved_state []
      (get_volume 7 ∷ []) (update telling conversions plan state (get_volume 7 ∷ [])).1
      telling_semantics tells reads refl refl read_saves
      (ap (λ r. (r, (update telling conversions plan state (get_volume 7 ∷ [])).1)) refreshed_saves)
