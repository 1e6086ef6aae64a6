-- ===== src/ObjectStorage.antt =====
-- linode/obj/helpers.go and framework_models.go: where the keys of the object storage come from, and the
-- temporary keys, which are created for a change and deleted after it. The time, which ends the label of
-- a temporary key, and the test of a cluster's name, a regular expression, are arguments.
pub mod Teardown
mod Tests
use Prim.Native.String.{◌++◌ as append, len, slice}
use terraform_provider_linod.Prelude.{
  ℕ, String, Bool, true, false, not, ◌&&◌, Option, none, some, List, [], ◌∷◌, Result, ok, err, ◌!=◌,
  string_eq, ltb, if◌then◌else◌,
}
use terraform_provider_linod.Prelude.Runs.{Runs, done, fail, ◌>>=◌, ◌>>◌, or_fail}

pub record ObjectKeys : Type 0 where
  pub access_key : String
  pub secret_key : String

-- linodego's key.
pub record StoredKey : Type 0 where
  pub id : ℕ
  pub keys : ObjectKeys

pub record KeyOptions : Type 0 where
  pub label : String
  pub bucket_name : String
  pub permissions : String
  pub cluster : String
  pub region : String

pub data EndpointType : Type 0 where
  e0 e1 : EndpointType
  other : String → EndpointType

-- A pause of 30 seconds is kept as a call.
pub data Call : Type 0 where
  create_key : KeyOptions → Call
  get_bucket : String → String → Call
  delete_key : ℕ → Call
  sleep : Call

abbrev pub Calls : Type 0
Calls = List Call

abbrev pub Run : Type 0 → Type 0
Run = Runs Call

-- A reply that only says that the call went through.
abbrev pub Ack : Type 0
Ack = Unit

pub record Client : Type 0 where
  pub creates : KeyOptions → Calls → Result String StoredKey
  pub endpoint_of : String → String → Calls → Result String EndpointType
  pub deletes : ℕ → Calls → Result String Ack

-- `Ok`
unfoldable pub has_both : ObjectKeys → Bool
has_both keys = keys.access_key != "" && keys.secret_key != ""

abbrev truncated : String → String
truncated bucket_label = if ltb 34 (len bucket_label) then slice bucket_label 0 34 else bucket_label

abbrev pub key_options : String → Bool → String → String → String → String → KeyOptions
key_options now is_cluster label bucket_label region_or_cluster permissions = record {
  label = append "temp_" (append label (append "_" now));
  bucket_name = bucket_label;
  permissions = permissions;
  cluster = if is_cluster then region_or_cluster else "";
  region = if is_cluster then "" else region_or_cluster;
}

abbrev is_slow : Option EndpointType → Bool
is_slow none = false
is_slow (some e0) = false
is_slow (some e1) = false
is_slow (some (other name)) = true

abbrev pub wait_for_key : Option EndpointType → StoredKey → Run StoredKey
wait_for_key endpoint_type keys h = (ok keys, if is_slow endpoint_type then sleep ∷ h else h)

abbrev pub found_or_none : Result String EndpointType → Option EndpointType
found_or_none (ok endpoint_type) = some endpoint_type
found_or_none (err e) = none

-- The keys, and the identifier of a temporary key that must be deleted after their use.
abbrev pub Found : Type 0
Found = ObjectKeys × Option ℕ

abbrev pub temporary : StoredKey → Found
temporary key = (key.keys, some key.id)

abbrev pub temp_or_fail : Bool → String → Run StoredKey → Run Found
temp_or_fail true message create = create >>= (λ key. done (temporary key))
temp_or_fail false message create = fail message

abbrev pub provider_or : Bool → ObjectKeys → Run Found → Run Found
provider_or true keys otherwise = done (keys, none)
provider_or false keys otherwise = otherwise

-- The region or cluster of the data, which may be an error.
abbrev pub with_region : Result String String → (String → Run StoredKey) → Run StoredKey
with_region (ok region) create = create region
with_region (err e) create = fail e

-- `tflog.Warn`, which reports no error.
abbrev pub warned : Result String Ack → Result String Ack
warned (ok a) = ok tt
warned (err e) = ok tt

module _ (client : Client) where
  -- A failure to delete a temporary key is a warning.
  unfoldable pub clean_up_temp_keys : ℕ → Run Unit
  clean_up_temp_keys key_id h = (warned (client.deletes key_id h), delete_key key_id ∷ h)

  -- `if teardownKeys != nil { defer teardownKeys() }`, around what uses the keys.
  abbrev pub teardown : {A : Type 0} → Option ℕ → Result String A × Calls → Result String A × Calls
  teardown none r = r
  teardown (some id) r = (r.0, (clean_up_temp_keys id r.1).1)

  unfoldable pub use_keys : {A : Type 0} → Run Found → (ObjectKeys → Run A) → Run A
  use_keys get body = get >>= (λ found h. teardown found.1 (body found.0 h))

  abbrev pub create_object_storage_key : KeyOptions → Run StoredKey
  create_object_storage_key options h = (client.creates options h, create_key options ∷ h)

  -- An endpoint that is not given is looked up; where that fails, it stays unknown.
  abbrev pub wait_for_endpoint : Option EndpointType → String → String → StoredKey → Run StoredKey
  wait_for_endpoint (some endpoint_type) cluster label keys h =
      wait_for_key (some endpoint_type) keys h
  wait_for_endpoint none cluster label keys h =
      wait_for_key (found_or_none (client.endpoint_of cluster label h)) keys
        (get_bucket cluster label ∷ h)

  module _ (now : String) (is_cluster : String → Bool) where
    -- createTempKeys; the label that is looked up has been truncated.
    unfoldable pub create_temp_keys : String → String → String → Option EndpointType → Run StoredKey
    create_temp_keys bucket_label region_or_cluster permissions endpoint_type = do
      keys ← create_object_storage_key (
          key_options now (is_cluster region_or_cluster) (truncated bucket_label) bucket_label
            region_or_cluster permissions)
      wait_for_endpoint endpoint_type region_or_cluster (truncated bucket_label) keys

    -- fwCreateTempKeys, which truncates nothing.
    unfoldable pub fw_create_temp_keys :
        String → String → String → Option EndpointType → Run StoredKey
    fw_create_temp_keys bucket_label region_or_cluster permissions endpoint_type = do
      keys ← or_fail "Failed to Create Object Storage Key" (
          create_object_storage_key (
            key_options now (is_cluster region_or_cluster) bucket_label bucket_label
              region_or_cluster permissions))
      wait_for_endpoint endpoint_type region_or_cluster bucket_label keys

    unfoldable pub get_obj_keys :
        ObjectKeys → ObjectKeys → Bool → String → String → String → Option EndpointType → Run Found
    get_obj_keys resource_keys provider_keys use_temp_keys bucket region_or_cluster permission
          endpoint_type =
        provider_or (has_both resource_keys) resource_keys (
          provider_or (has_both provider_keys) provider_keys (
            temp_or_fail use_temp_keys "access_key and secret_key are required."
              (create_temp_keys bucket region_or_cluster permission endpoint_type)))

    -- `GetObjectStorageKeys`; the endpoint type that it is given is not passed on.
    unfoldable pub get_object_storage_keys :
        ObjectKeys
        → ObjectKeys
        → Bool
        → String
        → Result String String
        → String
        → Option EndpointType
        → Run Found
    get_object_storage_keys data_keys config_keys use_temp_keys bucket region_or_cluster permissions
          endpoint_type =
        provider_or (has_both data_keys) data_keys (
          provider_or (has_both config_keys) config_keys (
            temp_or_fail use_temp_keys "Keys Not Found" (
              with_region region_or_cluster
                (λ region. fw_create_temp_keys bucket region permissions none))))
