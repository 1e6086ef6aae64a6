-- ===== src/Instance/Configs/Attached.antt =====
-- The detacher that leaves alone what is attached to the instance.
use terraform_provider_linod.Prelude.Runs.{Made, Every, Kept, Kept-holds, Kept-last, Kept-call}
use terraform_provider_linod.Prelude.{
  ℕ, Bool, true, false, ◌≡◌, refl, ◌≢◌, inl, Option, none, some, List, [], ◌∷◌, ok, ◌==◌, ==_iff,
  nat_eq, string_eq, arith, if◌then◌else◌,
}
use mathlib.Core.Path.{subst}
use terraform_provider_linod.Instance.{
  ConfigDeviceMap, Volume, Call, get_volume, detach_volume, Client, History, Run, Ack,
}
use terraform_provider_linod.Instance.Configs.Volumes.{
  volume_detacher, detach_unless_attached, volume_detacher_ignore_attached, detach_each,
  detach_config_volumes,
}

-- A detachment is allowed of a volume that the API said is not attached to this instance.
abbrev pub DetachAllowed : Client → ℕ → Call → History → Type 0
DetachAllowed client id (detach_volume v) h =
    Made
      (λ c h'.
        (c ≡ get_volume v)
        × ((vol : Volume) × (client.answers_volume c h' ≡ ok vol) × (vol.linode_id ≢ some id)))
      h
DetachAllowed client id _ h = Unit

module _ (client : Client) (id : ℕ) where
  abbrev Allowed : Call → History → Type 0
  Allowed c h = DetachAllowed client id c h

  detach-Kept :
      (v : ℕ) (h : History)
      → Every Allowed h
      → Allowed (detach_volume v) h
      → Kept Allowed (volume_detacher client v h)
  unfolding volume_detacher
  detach-Kept v h kept may =
      Kept-call _ _ _ _ (may, kept)
        (λ a e k1. Kept-call _ _ _ _ (tt, k1) (λ vol e1 k2. Kept-last _ _ _ k2))

  choice-Kept :
      (b : Bool) (m n : Run Ack) (h : History)
      → (b ≡ true → Kept Allowed (m h))
      → (b ≡ false → Kept Allowed (n h))
      → Kept Allowed ((if b then m else n) h)
  choice-Kept true m n h first second = first refl
  choice-Kept false m n h first second = second refl

  unless-Kept :
      (v : ℕ) (linode : Option ℕ) (h : History)
      → Every Allowed h
      → (linode ≢ some id → Allowed (detach_volume v) h)
      → Kept Allowed (detach_unless_attached client v linode id h)
  unless-Kept v none h kept may = detach-Kept v h kept (may (λ e. cc))
  unless-Kept v (some linode) h kept may =
      choice-Kept (linode == id) _ _ h (λ e. Kept-last _ _ _ kept)
        (λ e. detach-Kept v h kept (may (λ same. ground (arith, e, ==_iff linode id))))

  ignoring-Kept :
      (v : ℕ) (h : History)
      → Every Allowed h
      → Kept Allowed (volume_detacher_ignore_attached client (ok id) v h)
  unfolding volume_detacher_ignore_attached
  ignoring-Kept v h kept = Kept-call _ _ _ _ kept (λ i e1 k1.
      Kept-call _ _ _ _ (tt, k1)
        (λ vol e2 k2.
          let same : id ≡ i = cc in
          subst
            (λ j. Kept Allowed (detach_unless_attached client v vol.linode_id j (get_volume v ∷ h)))
            same (unless-Kept v vol.linode_id _ k2 (λ other. inl (refl, (vol, e2, other))))))

  each-Kept :
      (vs : List ℕ) (h : History)
      → Every Allowed h
      → Every Allowed (detach_each (volume_detacher_ignore_attached client (ok id)) vs h).1
  unfolding detach_each
  each-Kept [] h kept = kept
  each-Kept (v ∷ vs) h kept = each-Kept vs _ (Kept-holds _ _ (ignoring-Kept v h kept))

  -- A detachment that ignores what is attached detaches a volume only after the API has said that it
  -- is not attached to this instance.
  pub detach_config_volumes_ignores :
      (schedule : History → List ℕ → List ℕ) (dmap : ConfigDeviceMap) (h : History)
      → Every (DetachAllowed client id) h
      → Every
          (DetachAllowed client id)
          (detach_config_volumes schedule dmap (volume_detacher_ignore_attached client (ok id)) h).1
  unfolding detach_config_volumes
  detach_config_volumes_ignores schedule dmap h kept = each-Kept _ h kept
