-- ===== src/ObjectStorage/Tests.antt =====
-- The temporary keys, at concrete inputs.
use terraform_provider_linod.Prelude.{
  string_eq, ◌==◌, if◌then◌else◌, String, Bool, true, false, ◌≡◌, refl, none, some, [], ◌∷◌, Result,
  ok, err,
}
use terraform_provider_linod.Prelude.Runs.{after}
use terraform_provider_linod.ObjectStorage.{
  ObjectKeys, StoredKey, Client, Run, e0, other, create_key, get_bucket, delete_key, sleep,
  key_options, create_temp_keys, get_obj_keys, get_object_storage_keys, has_both,
  clean_up_temp_keys, use_keys,
}
use terraform_provider_linod.ObjectStorage.Teardown.{live, IsCleared, no_key_left}

abbrev no_keys : ObjectKeys
no_keys = record { access_key = ""; secret_key = "" }

abbrev stored : StoredKey
stored = record { id = 7; keys = record { access_key = "a"; secret_key = "s" } }

-- A bucket is known by its whole label only.
abbrev client : Client
client = record {
  creates = λ options h. ok stored;
  endpoint_of = λ cluster label h.
      if label == "a bucket whose label is longer than that" then ok e0 else err "404";
  deletes = λ id h. ok tt;
}

-- The same, but no key can be deleted.
abbrev refusing : Client
refusing = record client { deletes = λ id h. err "503" }

abbrev never : String → Bool
never region = false

abbrev failing : ObjectKeys → Run Unit
failing keys h = (err "PutObject", sleep ∷ h)

-- A long label is looked up in its truncated form.
truncated_lookup :
    (create_temp_keys client "1" never "a bucket whose label is longer than that" "eu" "read_only"
      none []).1
    ≡ get_bucket "eu" "a bucket whose label is longer tha"
      ∷ create_key (
          key_options "1" false "a bucket whose label is longer tha"
            "a bucket whose label is longer than that" "eu" "read_only")
      ∷ []
unfolding create_temp_keys after
truncated_lookup = refl

-- The key is deleted after a use that fails.
deleted_after_failure :
    use_keys client
      (get_obj_keys client "1" never no_keys no_keys true "b" "eu" "read_only" (some (other "E2")))
      failing
      []
    ≡ (
      err "PutObject",
      delete_key 7
          ∷ sleep
          ∷ sleep
          ∷ create_key (key_options "1" false "b" "b" "eu" "read_only")
          ∷ [],
    )
unfolding use_keys get_obj_keys create_temp_keys after has_both clean_up_temp_keys
deleted_after_failure = refl

-- Where the deletion is refused, the key is left, and the use reports its own result.
left_where_refused :
    let r =
      use_keys refusing
        (get_obj_keys refusing "1" never no_keys no_keys true "b" "eu" "read_only" (some e0))
        failing
        [] in
    (r.0 ≡ err "PutObject") × (live refusing r.1 ≡ 7 ∷ [])
unfolding use_keys get_obj_keys create_temp_keys after has_both clean_up_temp_keys
left_where_refused = (refl, refl)

no_key_left_example :
    ((region_or_cluster : String)
      → IsCleared client []
          (use_keys client
            (get_obj_keys client "1" never no_keys no_keys true "b" region_or_cluster "read_only"
              none)
            failing
            []).1)
    × ((region_or_cluster : Result String String)
        → IsCleared client []
            (use_keys client
              (get_object_storage_keys client "1" never no_keys no_keys true "b" region_or_cluster
                "read_only" none)
              failing
              []).1)
no_key_left_example =
    no_key_left client failing (λ keys k. refl) "1" never no_keys no_keys true "b" "read_only" none
      []
