-- ===== src/Volume/Semantics.antt =====
-- What the code relies on the API for, for one volume: what the volume is after each call that
-- succeeds. A change that is waited for has taken place after the wait.
use terraform_provider_linod.Prelude.{ℕ, String, ◌≡◌, Option, none, some, List, ok, ◌∷◌}
use terraform_provider_linod.Volume.{
  Volume, VolumeUpdateOptions, update_volume, resize_volume, attach_volume, detach_volume,
  wait_for_volume_active, wait_for_volume_linode_id, History, Client, Ack,
}

-- What an update may change of a volume.
pub record View : Type 0 where
  pub size : ℕ
  pub label : String
  pub tags : List String
  pub linode_id : Option ℕ

abbrev pub retagged : Option (List String) → List String → List String
retagged (some tags) old = tags
retagged none old = old

pub record VolumeSemantics (client : Client) (id : ℕ) (view : History → View) : Type 0 where
  pub resized :
      (n : ℕ) (h : History) (a : Ack) (v : Volume)
      → client.acts (resize_volume id n) h ≡ ok a
      → client.answers_volume (wait_for_volume_active id) (resize_volume id n ∷ h) ≡ ok v
      → (view (wait_for_volume_active id ∷ resize_volume id n ∷ h) ≡ record (view h) { size = n })
        × (v.id ≡ id)
  pub updated :
      (o : VolumeUpdateOptions) (h : History) (v : Volume)
      → client.answers_volume (update_volume id o) h ≡ ok v
      → view (update_volume id o ∷ h)
        ≡ record (view h) { label = o.label; tags = retagged o.tags (view h).tags }
  pub detached :
      (h : History) (a : Ack) (v : Volume)
      → client.acts (detach_volume id) h ≡ ok a
      → client.answers_volume (wait_for_volume_linode_id id none) (detach_volume id ∷ h) ≡ ok v
      → view (wait_for_volume_linode_id id none ∷ detach_volume id ∷ h)
        ≡ record (view h) { linode_id = none }
  pub attached :
      (n : ℕ) (h : History) (w v : Volume)
      → client.answers_volume (attach_volume id n) h ≡ ok w
      → client.answers_volume (wait_for_volume_linode_id id (some n)) (attach_volume id n ∷ h)
        ≡ ok v
      → view (wait_for_volume_linode_id id (some n) ∷ attach_volume id n ∷ h)
        ≡ record (view h) { linode_id = some n }
