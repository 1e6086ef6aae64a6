-- ===== src/Instance/Configs/Interfaces.antt =====
-- The interfaces of a config: linode/helper/instance.go, ExpandInterfaceIPv4 to FlattenInterfaceIPv4.
-- `none` is a key that is absent or nil.
use terraform_provider_linod.Prelude.{
  ℕ, String, Bool, false, ◌&&◌, ◌≡◌, refl, Option, none, some, List, [], ◌∷◌, map, Slice, ◌==◌,
  ==_iff, nat_eq, string_eq, arith, if◌then◌else◌,
}
use terraform_provider_linod.Instance.{VpcIpv4, Ipv6Options, InterfaceOptions}

-- A block `ipv4`, with `nat_1_1`.
pub record Ipv4Block : Type 0 where
  pub vpc : String
  pub nat_1_1 : String

pub record Ipv6Block : Type 0 where
  pub slaac : Option (List String)
  pub range : Option (List (Option String))
  pub is_public : Option Bool

pub record InterfaceBlock : Type 0 where
  pub purpose : String
  pub primary : Bool
  pub ipam_address : Option String
  pub label : Option String
  pub subnet_id : Option ℕ
  pub ipv4 : Option (List Ipv4Block)
  pub ipv6 : Option (List Ipv6Block)
  pub ip_ranges : Option (List String)

unfoldable pub expand_interface_ipv4 : Ipv4Block → Option VpcIpv4
expand_interface_ipv4 ipv4 =
    if ipv4.vpc == "" && ipv4.nat_1_1 == ""
    then none
    else some (ipv4.vpc, if ipv4.nat_1_1 == "" then none else some ipv4.nat_1_1)

unfoldable pub expand_interface_ipv6_create_options : Ipv6Block → Ipv6Options
expand_interface_ipv6_create_options ipv6 = (ipv6.slaac, (ipv6.range, ipv6.is_public))

-- The first of the blocks, if there is one.
abbrev pub first : {A B : Type 0} → (A → Option B) → Option (List A) → Option B
first f none = none
first f (some []) = none
first f (some (x ∷ xs)) = f x

abbrev pub text_or_empty : Option String → String
text_or_empty none = ""
text_or_empty (some s) = s

abbrev nonzero : Option ℕ → Option ℕ
nonzero none = none
nonzero (some n) = if n == 0 then none else some n

abbrev nonempty : Option (List String) → Slice String
nonempty none = none
nonempty (some []) = none
nonempty (some (s ∷ ss)) = some (s ∷ ss)

unfoldable pub expand_config_interface : InterfaceBlock → InterfaceOptions
expand_config_interface iface =
    let vlan = iface.purpose == "vlan" in
    let vpc = iface.purpose == "vpc" in
    record {
      purpose = iface.purpose;
      primary = iface.primary;
      ipam_address = if vlan then text_or_empty iface.ipam_address else "";
      label = if vlan then text_or_empty iface.label else "";
      subnet_id = if vpc then nonzero iface.subnet_id else none;
      ipv4 = if vpc then first expand_interface_ipv4 iface.ipv4 else none;
      ipv6 =
          if vpc
          then first (λ b. some (expand_interface_ipv6_create_options b)) iface.ipv6
          else none;
      ip_ranges = if vpc then nonempty iface.ip_ranges else none;
    }

unfoldable pub expand_config_interfaces : List InterfaceBlock → List InterfaceOptions
expand_config_interfaces ifaces = map expand_config_interface ifaces

-- The state keeps a nil `nat_1_1` as the empty text.
unfoldable pub flatten_interface_ipv4 : Option VpcIpv4 → List Ipv4Block
flatten_interface_ipv4 none = []
flatten_interface_ipv4 (some (vpc, nat)) = record { vpc = vpc; nat_1_1 = text_or_empty nat } ∷ []

-- What the API holds of an address: it has one, or one for NAT that is not empty.
abbrev pub IsAddress : VpcIpv4 → Type 0
IsAddress (vpc, none) = (vpc == "") ≡ false
IsAddress (vpc, some nat) = (nat == "") ≡ false

-- An interface's addresses that are set, read into the state and expanded again, are the same.
pub expand-flatten_interface_ipv4 :
    (a : VpcIpv4)
    → IsAddress a
    → first expand_interface_ipv4 (some (flatten_interface_ipv4 (some a))) ≡ some a
unfolding expand_interface_ipv4 flatten_interface_ipv4
expand-flatten_interface_ipv4 (vpc, none) set = rw set refl
expand-flatten_interface_ipv4 (vpc, some nat) set = ground (arith, set)

-- A block of addresses, expanded and read back, is itself, or is gone if both addresses are empty.
pub flatten-expand_interface_ipv4 :
    (b : Ipv4Block)
    → flatten_interface_ipv4 (expand_interface_ipv4 b)
      ≡ (if b.vpc == "" && b.nat_1_1 == "" then [] else b ∷ [])
unfolding expand_interface_ipv4 flatten_interface_ipv4
flatten-expand_interface_ipv4 b = ground (arith, ==_iff b.vpc "", ==_iff b.nat_1_1 "")
