-- ===== src/Instance/Configs/Slots.antt =====
-- What each slot of the expanded devices holds.
use mathlib.Core.Path.{subst}
use terraform_provider_linod.Prelude.{
  ℕ, String, Bool, true, false, ◌≡◌, refl, sym, ap, ◌∙◌, Option, none, some, List, [], ◌∷◌, Result,
  ok, err, >>=-eq-ok, ◌==◌, ==_iff, string_eq, arith, if◌then◌else◌,
}
use terraform_provider_linod.Prelude.Dict.{Dict, get}
use terraform_provider_linod.Instance.{ConfigDevice, ConfigDeviceMap}
use terraform_provider_linod.Instance.Configs.{
  DeviceSpec, DeviceSlots, no_devices, nonempty_device, set_slot, change_instance_config_device,
  assign_config_device, fill_slot, fill_slots, expand_instance_config_device_map,
}

pub data Slot : Type 0 where
  sda sdb sdc sdd sde sdf sdg sdh : Slot

abbrev pub slot_name : Slot → String
slot_name sda = "sda"
slot_name sdb = "sdb"
slot_name sdc = "sdc"
slot_name sdd = "sdd"
slot_name sde = "sde"
slot_name sdf = "sdf"
slot_name sdg = "sdg"
slot_name sdh = "sdh"

abbrev pub device_in : Slot → ConfigDeviceMap → Option ConfigDevice
device_in sda dmap = dmap.sda
device_in sdb dmap = dmap.sdb
device_in sdc dmap = dmap.sdc
device_in sdd dmap = dmap.sdd
device_in sde dmap = dmap.sde
device_in sdf dmap = dmap.sdf
device_in sdg dmap = dmap.sdg
device_in sdh dmap = dmap.sdh

device_in-set :
    (s : Slot) (dmap : ConfigDeviceMap) (k : String) (device : Option ConfigDevice)
    → device_in s (set_slot dmap k device) ≡ (if k == slot_name s then device else device_in s dmap)
device_in-set sda dmap k device = refl
device_in-set sdb dmap k device = refl
device_in-set sdc dmap k device = refl
device_in-set sdd dmap k device = refl
device_in-set sde dmap k device = refl
device_in-set sdf dmap k device = refl
device_in-set sdg dmap k device = refl
device_in-set sdh dmap k device = refl

-- What a list of blocks leaves in a slot.
abbrev pub assigned_device : Dict String ℕ → DeviceSpec → Option ConfigDevice
assigned_device labels dev = elim (assign_config_device dev labels) [
  | ok device ↦ nonempty_device (some device)
  | err e ↦ none
]

abbrev pub last_device : Dict String ℕ → List DeviceSpec → Option ConfigDevice → Option ConfigDevice
last_device labels [] before = before
last_device labels (dev ∷ blocks) before = last_device labels blocks (assigned_device labels dev)

chosen :
    (b : Bool) (f : Option ConfigDevice → Option ConfigDevice)
    (result between device before assigned : Option ConfigDevice)
    → result ≡ (if b then f between else between)
    → between ≡ (if b then device else before)
    → assigned ≡ device
    → result ≡ (if b then f assigned else before)
chosen true f result between device before assigned e1 e2 e3 = e1 ∙ ap f (e2 ∙ sym e3)
chosen false f result between device before assigned e1 e2 e3 = e1 ∙ e2

fill_slot-device :
    (labels : Dict String ℕ) (s : Slot) (k : String) (blocks : List DeviceSpec)
    (dmap dmap' : ConfigDeviceMap)
    → fill_slot labels k blocks dmap ≡ ok dmap'
    → device_in s dmap' ≡ (
        if k == slot_name s then last_device labels blocks (device_in s dmap) else device_in s dmap)
unfolding fill_slot change_instance_config_device
fill_slot-device labels s k [] dmap dmap' e = let same : dmap ≡ dmap' = cc in rw same (ground arith)
fill_slot-device labels s k (dev ∷ blocks) dmap dmap' e =
    let r = >>=-eq-ok (assign_config_device dev labels) _ e in
    let device = nonempty_device (some r.0) in
    chosen (k == slot_name s) (last_device labels blocks) _ _ device _ _
      (fill_slot-device labels s k blocks (set_slot dmap k device) dmap' r.2)
      (device_in-set s dmap k device)
      (ap
        (λ (a : Result String ConfigDevice). elim a [
          | ok d ↦ nonempty_device (some d)
          | err m ↦ none
        ])
        r.1)

abbrev pub found_blocks : Option (List DeviceSpec) → List DeviceSpec
found_blocks none = []
found_blocks (some blocks) = blocks

abbrev pub blocks_of : DeviceSlots → String → List DeviceSpec
blocks_of m k = found_blocks (get k m)

-- A map has each key once.
abbrev pub HasUniqueKeys : DeviceSlots → Type 0
HasUniqueKeys [] = Unit
HasUniqueKeys ((k, blocks) ∷ m) = (get k m ≡ none) × HasUniqueKeys m

added :
    (b : Bool) (labels : Dict String ℕ) (blocks rest : List DeviceSpec)
    (before between : Option ConfigDevice)
    → between ≡ (if b then last_device labels blocks before else before)
    → (b ≡ true → rest ≡ [])
    → last_device labels rest between ≡ last_device labels (if b then blocks else rest) before
added true labels blocks rest before between e last = rw (last refl) e
added false labels blocks rest before between e last = ap (last_device labels rest) e

by_test :
    (b : Bool) (blocks : List DeviceSpec) (rest : Option (List DeviceSpec))
    → found_blocks (if b then some blocks else rest) ≡ (if b then blocks else found_blocks rest)
by_test true blocks rest = refl
by_test false blocks rest = refl

blocks_of-cons :
    (k n : String) (blocks : List DeviceSpec) (m : DeviceSlots)
    → blocks_of ((k, blocks) ∷ m) n ≡ (if k == n then blocks else blocks_of m n)
unfolding get
blocks_of-cons k n blocks m = by_test (k == n) blocks (get n m)

blocks_of-last :
    (k n : String) (m : DeviceSlots) → get k m ≡ none → (k == n) ≡ true → blocks_of m n ≡ []
blocks_of-last k n m fresh e =
    let same : k ≡ n = (==_iff k n).0 e in
    let found : blocks_of m k ≡ [] = rw (blocks_of, fresh) refl in
    subst (λ j. blocks_of m j ≡ []) same found

fill_slots-device :
    (labels : Dict String ℕ) (s : Slot) (m : DeviceSlots) (dmap dmap' : ConfigDeviceMap)
    → HasUniqueKeys m
    → fill_slots labels m dmap ≡ ok dmap'
    → device_in s dmap' ≡ last_device labels (blocks_of m (slot_name s)) (device_in s dmap)
unfolding fill_slots get
fill_slots-device labels s [] dmap dmap' unique e = let same : dmap ≡ dmap' = cc in rw same refl
fill_slots-device labels s ((k, blocks) ∷ m) dmap dmap' unique e =
    let r = >>=-eq-ok (fill_slot labels k blocks dmap) _ e in
    let n = slot_name s in
    fill_slots-device labels s m r.0 dmap' unique.1 r.2
    ∙ added (k == n) labels blocks (blocks_of m n) (device_in s dmap) (device_in s r.0)
        (fill_slot-device labels s k blocks dmap r.0 r.1) (blocks_of-last k n m unique.0)
    ∙ ap (λ bs. last_device labels bs (device_in s dmap)) (sym (blocks_of-cons k n blocks m))

device_in-none : (s : Slot) → device_in s no_devices ≡ none
device_in-none sda = refl
device_in-none sdb = refl
device_in-none sdc = refl
device_in-none sdd = refl
device_in-none sde = refl
device_in-none sdf = refl
device_in-none sdg = refl
device_in-none sdh = refl

-- If the expansion of a map of device blocks succeeds, every slot holds what the last block under its
-- name is assigned, and nothing where the map has no block for it, whatever the order of the map.
pub expand_instance_config_device_map_slots :
    (labels : Dict String ℕ) (s : Slot) (m : DeviceSlots) (dmap : ConfigDeviceMap)
    → HasUniqueKeys m
    → expand_instance_config_device_map m labels ≡ ok (some dmap)
    → device_in s dmap ≡ last_device labels (blocks_of m (slot_name s)) none
unfolding expand_instance_config_device_map
expand_instance_config_device_map_slots labels s [] dmap unique e = cc
expand_instance_config_device_map_slots labels s (entry ∷ m) dmap unique e =
    let r = >>=-eq-ok (fill_slots labels (entry ∷ m) no_devices) _ e in
    let same : r.0 ≡ dmap = cc in
    subst (λ d. device_in s d ≡ last_device labels (blocks_of (entry ∷ m) (slot_name s)) none) same
      (fill_slots-device labels s (entry ∷ m) no_devices r.0 unique r.1
        ∙ ap (last_device labels (blocks_of (entry ∷ m) (slot_name s))) (device_in-none s))
