-- ===== src/ObjectStorage/Teardown.antt =====
-- linode/obj/helpers.go: a temporary key does not outlive what it was created for, unless the API refuses to
-- delete it.
use mathlib.Core.Path.{◌≡◌, refl, ap, ◌∙◌}
use terraform_provider_linod.Prelude.{
  ◌⊎◌, inl, inr, arith, ℕ, String, Bool, true, false, Option, none, some, List, [], ◌∷◌, Result, ok,
  err, ◌==◌, nat_eq, if◌then◌else◌,
}
use terraform_provider_linod.Prelude.Runs.{after, explained}
use terraform_provider_linod.ObjectStorage.{
  Ack, EndpointType, StoredKey, ObjectKeys, Client, Calls, Run, Found, create_key, get_bucket,
  delete_key, sleep, is_slow, found_or_none, wait_for_endpoint, provider_or, temp_or_fail,
  with_region, create_temp_keys, fw_create_temp_keys, get_obj_keys, get_object_storage_keys,
  clean_up_temp_keys, teardown, use_keys, has_both,
}

abbrev remove_first : ℕ → List ℕ → List ℕ
remove_first id [] = []
remove_first id (x ∷ xs) = let rest = remove_first id xs in if x == id then xs else x ∷ rest

remove_first_head : (id : ℕ) (ids : List ℕ) → remove_first id (id ∷ ids) ≡ ids
remove_first_head id ids = ground arith

abbrev with_created : Result String StoredKey → List ℕ → List ℕ
with_created (ok key) ids = key.id ∷ ids
with_created (err e) ids = ids

abbrev with_deleted : Result String Ack → ℕ → List ℕ → List ℕ
with_deleted (ok a) id ids = remove_first id ids
with_deleted (err e) id ids = ids

module _ (client : Client) where
  -- The keys that exist after some calls: those that the API has created and not deleted.
  abbrev pub live : Calls → List ℕ
  live [] = []
  live (create_key options ∷ h) = with_created (client.creates options h) (live h)
  live (get_bucket cluster label ∷ h) = live h
  live (delete_key id ∷ h) = with_deleted (client.deletes id h) id (live h)
  live (sleep ∷ h) = live h

  -- What a run that creates a key, and one that finds keys, has to leave.
  abbrev Creates : Calls → Result String StoredKey × Calls → Type 0
  Creates h (ok key, k) = live k ≡ key.id ∷ live h
  Creates h (err e, k) = live k ≡ live h

  abbrev Finds : Calls → Result String Found × Calls → Type 0
  Finds h (ok (keys, none), k) = live k ≡ live h
  Finds h (ok (keys, some id), k) = live k ≡ id ∷ live h
  Finds h (err e, k) = live k ≡ live h

  live_slow : (slow : Bool) (h : Calls) → live (if slow then sleep ∷ h else h) ≡ live h
  live_slow true h = refl
  live_slow false h = refl

  module _ (cluster label : String) where
    wait-Creates :
        (endpoint_type : Option EndpointType) (h k : Calls) (key : StoredKey)
        → live k ≡ key.id ∷ live h
        → Creates h (wait_for_endpoint client endpoint_type cluster label key k)
    wait-Creates (some endpoint_type) h k key e = live_slow (is_slow (some endpoint_type)) k ∙ e
    wait-Creates none h k key e =
        live_slow (is_slow (found_or_none (client.endpoint_of cluster label k)))
          (get_bucket cluster label ∷ k)
        ∙ e

    created-Creates :
        (endpoint_type : Option EndpointType) (answer : Result String StoredKey) (h k : Calls)
        → live k ≡ with_created answer (live h)
        → Creates h (after (wait_for_endpoint client endpoint_type cluster label) (answer, k))
    unfolding after
    created-Creates endpoint_type (ok key) h k e = wait-Creates endpoint_type h k key e
    created-Creates endpoint_type (err message) h k e = e

  module _ (now : String) (is_cluster : String → Bool) where
    create_temp_keys-Creates :
        (bucket_label region_or_cluster permissions : String) (endpoint_type : Option EndpointType)
        (h : Calls)
        → Creates h (
            create_temp_keys client now is_cluster bucket_label region_or_cluster permissions
              endpoint_type h)
    unfolding create_temp_keys
    create_temp_keys-Creates bucket_label region_or_cluster permissions endpoint_type h =
        created-Creates _ _ endpoint_type _ h _ refl

    explained-Creates :
        (message : String) (endpoint_type : Option EndpointType) (cluster label : String)
        (answer : Result String StoredKey) (h k : Calls)
        → live k ≡ with_created answer (live h)
        → Creates h (
            after
              (wait_for_endpoint client endpoint_type cluster label)
              (explained message (answer, k)))
    unfolding after explained
    explained-Creates message endpoint_type cluster label (ok key) h k e =
        wait-Creates cluster label endpoint_type h k key e
    explained-Creates message endpoint_type cluster label (err m) h k e = e

    fw_create_temp_keys-Creates :
        (bucket_label region_or_cluster permissions : String) (endpoint_type : Option EndpointType)
        (h : Calls)
        → Creates h (
            fw_create_temp_keys client now is_cluster bucket_label region_or_cluster permissions
              endpoint_type h)
    unfolding fw_create_temp_keys
    fw_create_temp_keys-Creates bucket_label region_or_cluster permissions endpoint_type h =
        explained-Creates _ endpoint_type _ _ _ h _ refl

  with_region-Creates :
      (region : Result String String) (create : String → Run StoredKey) (h : Calls)
      → ((name : String) → Creates h (create name h))
      → Creates h (with_region region create h)
  with_region-Creates (ok name) create h creates = creates name
  with_region-Creates (err e) create h creates = refl

  after_created-Finds :
      (h : Calls) (r : Result String StoredKey × Calls)
      → Creates h r
      → Finds h (after (λ key k. (ok (key.keys, some key.id), k)) r)
  unfolding after
  after_created-Finds h (ok key, k) e = e
  after_created-Finds h (err m, k) e = e

  temp-Finds :
      (use_temp_keys : Bool) (message : String) (create : Run StoredKey) (h : Calls)
      → Creates h (create h)
      → Finds h (temp_or_fail use_temp_keys message create h)
  temp-Finds true message create h creates = after_created-Finds h (create h) creates
  temp-Finds false message create h creates = refl

  provider-Finds :
      (given : Bool) (keys : ObjectKeys) (otherwise : Run Found) (h : Calls)
      → Finds h (otherwise h)
      → Finds h (provider_or given keys otherwise h)
  provider-Finds true keys otherwise h finds = refl
  provider-Finds false keys otherwise h finds = finds

  module _ (now : String) (is_cluster : String → Bool) (own provider : ObjectKeys)
      (use_temp_keys : Bool) (bucket permission : String) (endpoint_type : Option EndpointType)
      (h : Calls) where
    get_obj_keys-Finds :
        (region_or_cluster : String)
        → Finds h (
            get_obj_keys client now is_cluster own provider use_temp_keys bucket region_or_cluster
              permission endpoint_type h)
    unfolding get_obj_keys
    get_obj_keys-Finds region_or_cluster = provider-Finds (has_both own) own _ h (
        provider-Finds (has_both provider) provider _ h (
          temp-Finds use_temp_keys _ _ h (
            create_temp_keys-Creates now is_cluster bucket region_or_cluster permission
              endpoint_type h)))

    get_object_storage_keys-Finds :
        (region_or_cluster : Result String String)
        → Finds h (
            get_object_storage_keys client now is_cluster own provider use_temp_keys bucket
              region_or_cluster permission endpoint_type h)
    unfolding get_object_storage_keys
    get_object_storage_keys-Finds region_or_cluster = provider-Finds (has_both own) own _ h (
        provider-Finds (has_both provider) provider _ h (
          temp-Finds use_temp_keys _ _ h (
            with_region-Creates region_or_cluster _ h (λ region.
              fw_create_temp_keys-Creates now is_cluster bucket region permission none h))))

  -- The deletion of a key was the last call, and the API refused it.
  abbrev pub IsRefused : ℕ → Calls → Type 0
  IsRefused id [] = ⊥
  IsRefused id (delete_key key ∷ k) = (key ≡ id) × (e : String) × (client.deletes id k ≡ err e)
  IsRefused id (_ ∷ k) = ⊥

  -- The keys are as before, but for one whose deletion the API refused.
  abbrev pub IsCleared : Calls → Calls → Type 0
  IsCleared h k = (live k ≡ live h) ⊎ ((id : ℕ) × (live k ≡ id ∷ live h) × IsRefused id k)

  deleted-IsCleared :
      (id : ℕ) (answer : Result String Ack) (h k : Calls)
      → client.deletes id k ≡ answer
      → live k ≡ id ∷ live h
      → IsCleared h (delete_key id ∷ k)
  deleted-IsCleared id (ok a) h k e f =
      inl (rw e (ap (remove_first id) f ∙ remove_first_head id (live h)))
  deleted-IsCleared id (err m) h k e f = inr (id, rw e f, (refl, m, e))

  module _ {A : Type 0} (body : ObjectKeys → Run A)
      (untouched : (keys : ObjectKeys) (k : Calls) → live (body keys k).1 ≡ live k) where
    found-IsCleared :
        (h : Calls) (r : Result String Found × Calls)
        → Finds h r
        → IsCleared h (after (λ found k. teardown client found.1 (body found.0 k)) r).1
    unfolding after clean_up_temp_keys
    found-IsCleared h (ok (keys, none), k) e = inl (untouched keys k ∙ e)
    found-IsCleared h (ok (keys, some id), k) e =
        deleted-IsCleared id (client.deletes id (body keys k).1) h (body keys k).1 refl
          (untouched keys k ∙ e)
    found-IsCleared h (err m, k) e = inl e

    use_keys-IsCleared :
        (get : Run Found) (h : Calls) → Finds h (get h) → IsCleared h (use_keys client get body h).1
    unfolding use_keys
    use_keys-IsCleared get h finds = found-IsCleared h (get h) finds

    -- If the use of the keys creates and deletes no key itself, then, with the keys of GetObjKeys and
    -- with those of GetObjectStorageKeys, whether they were given, created or not to be had, and whether
    -- their use succeeded or failed, the keys that exist afterwards are those that existed before, but
    -- for one temporary key where the last call was its deletion and the API refused it.
    pub no_key_left :
        (now : String) (is_cluster : String → Bool) (own provider : ObjectKeys)
        (use_temp_keys : Bool) (bucket permission : String) (endpoint_type : Option EndpointType)
        (h : Calls)
        → ((region_or_cluster : String)
            → IsCleared h
                (use_keys client
                  (get_obj_keys client now is_cluster own provider use_temp_keys bucket
                    region_or_cluster permission endpoint_type)
                  body
                  h).1)
          × ((region_or_cluster : Result String String)
              → IsCleared h
                  (use_keys client
                    (get_object_storage_keys client now is_cluster own provider use_temp_keys bucket
                      region_or_cluster permission endpoint_type)
                    body
                    h).1)
    no_key_left now is_cluster own provider use_temp_keys bucket permission endpoint_type h = (
      (λ region. use_keys-IsCleared _ h (
          get_obj_keys-Finds now is_cluster own provider use_temp_keys bucket permission
            endpoint_type h region)),
      (λ region. use_keys-IsCleared _ h (
          get_object_storage_keys-Finds now is_cluster own provider use_temp_keys bucket permission
            endpoint_type h region)),
    )
