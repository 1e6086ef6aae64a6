-- ===== src/Lke/ControlPlane.antt =====
-- The control plane of a cluster: expandControlPlaneOptions, expandACLOptions, expandACLAddressOptions
-- and flattenLKEClusterControlPlane of linode/lke/cluster.go. In a block `none` is a key that is absent.
use terraform_provider_linod.Prelude.{
  String, Bool, true, false, not, ◌&&◌, ◌||◌, ◌≡◌, refl, Option, none, some, List, [], ◌∷◌, map,
  Slice, items, is_empty, All, Result, ok, err, ◌!=◌, string_eq, arith, if◌then◌else◌,
}
use terraform_provider_linod.Prelude.{◌>>=◌ as ◌and_then◌}
use terraform_provider_linod.Lke.Specs.{Item, text, expand_string_list}

pub record AddressBlock : Type 0 where
  pub ipv4 : Option (List Item)
  pub ipv6 : Option (List Item)

pub record AclBlock : Type 0 where
  pub enabled : Option Bool
  pub addresses : Option (List AddressBlock)

pub record ControlPlaneBlock : Type 0 where
  pub high_availability : Option Bool
  pub audit_logs_enabled : Option Bool
  pub acl : Option (List AclBlock)

pub record AclAddresses : Type 0 where
  pub ipv4 : Slice String
  pub ipv6 : Slice String

pub record AclOptions : Type 0 where
  pub enabled : Option Bool
  pub addresses : Option AclAddresses

pub record ControlPlaneOptions : Type 0 where
  pub high_availability : Option Bool
  pub audit_logs_enabled : Option Bool
  pub acl : AclOptions

abbrev expand_addresses : Option (List Item) → Slice String
expand_addresses none = none
expand_addresses (some items) = some (expand_string_list items)

unfoldable pub expand_acl_address_options : AddressBlock → AclAddresses
expand_acl_address_options options = record {
  ipv4 = expand_addresses options.ipv4;
  ipv6 = expand_addresses options.ipv6;
}

abbrev first_addresses : Option (List AddressBlock) → Option AclAddresses
first_addresses none = none
first_addresses (some []) = none
first_addresses (some (block ∷ blocks)) = some (expand_acl_address_options block)

abbrev is_disabled : Option Bool → Bool
is_disabled none = false
is_disabled (some enabled) = not enabled

abbrev has_addresses : Option AclAddresses → Bool
has_addresses none = false
has_addresses (some a) = not (is_empty (items a.ipv4)) || not (is_empty (items a.ipv6))

unfoldable pub expand_acl_options : AclBlock → Result String AclOptions
expand_acl_options options =
    let addresses = first_addresses options.addresses in
    if is_disabled options.enabled && has_addresses addresses
    then err "addresses are not acceptable when ACL is disabled"
    else ok (record { enabled = options.enabled; addresses = addresses })

-- The access list is disabled unless there is a block for it.
abbrev acl_or_disabled : Option (List AclBlock) → Result String AclOptions
acl_or_disabled none = ok (record { enabled = some false; addresses = none })
acl_or_disabled (some []) = ok (record { enabled = some false; addresses = none })
acl_or_disabled (some (block ∷ blocks)) = expand_acl_options block

unfoldable pub expand_control_plane_options : ControlPlaneBlock → Result String ControlPlaneOptions
expand_control_plane_options control_plane = acl_or_disabled control_plane.acl and_then λ acl.
    ok (record {
      high_availability = control_plane.high_availability;
      audit_logs_enabled = control_plane.audit_logs_enabled;
      acl = acl;
    })

-- What the API answers: linodego's control plane, and its access list.
pub record ControlPlane : Type 0 where
  pub high_availability : Bool
  pub audit_logs_enabled : Bool

pub record Acl : Type 0 where
  pub enabled : Bool
  pub addresses : Option AclAddresses

-- The state has an empty set for a list that is nil.
abbrev flatten_set : Slice String → Option (List Item)
flatten_set addresses = some (map text (items addresses))

abbrev flatten_addresses : Option AclAddresses → Option (List AddressBlock)
flatten_addresses none = none
flatten_addresses (some a) =
    some (record { ipv4 = flatten_set a.ipv4; ipv6 = flatten_set a.ipv6 } ∷ [])

abbrev flatten_acl : Option Acl → Option (List AclBlock)
flatten_acl none = none
flatten_acl (some acl) =
    some (record { enabled = some acl.enabled; addresses = flatten_addresses acl.addresses } ∷ [])

unfoldable pub flatten_lke_cluster_control_plane : ControlPlane → Option Acl → ControlPlaneBlock
flatten_lke_cluster_control_plane control_plane acl_resp = record {
  high_availability = some control_plane.high_availability;
  audit_logs_enabled = some control_plane.audit_logs_enabled;
  acl = flatten_acl acl_resp;
}

abbrev pub IsText : String → Type 0
IsText s = (s != "") ≡ true

expand-map_text : (xs : List String) → All IsText xs → expand_string_list (map text xs) ≡ xs
unfolding expand_string_list
expand-map_text [] all = refl
expand-map_text (s ∷ xs) all = rw (expand-map_text xs all.1) (ground (arith, all.0))

-- An access list that the API has: its addresses are not empty, and it is enabled if it has any.
abbrev pub IsServed : Acl → Type 0
IsServed acl = elim acl.addresses [
  | none ↦ Unit
  | some a ↦
      All IsText (items a.ipv4)
      × All IsText (items a.ipv6)
      × ((not acl.enabled && (not (is_empty (items a.ipv4)) || not (is_empty (items a.ipv6))))
          ≡ false)
]

abbrev listed : Option AclAddresses → Option AclAddresses
listed none = none
listed (some a) = some (record { ipv4 = some (items a.ipv4); ipv6 = some (items a.ipv6) })

-- The options that the state of a control plane expands to.
abbrev pub options_of : ControlPlane → Acl → ControlPlaneOptions
options_of control_plane acl = record {
  high_availability = some control_plane.high_availability;
  audit_logs_enabled = some control_plane.audit_logs_enabled;
  acl = record { enabled = some acl.enabled; addresses = listed acl.addresses };
}

expand-flatten_addresses :
    (cp : ControlPlane) (enabled : Bool) (addresses : Option AclAddresses)
    → IsServed (record { enabled = enabled; addresses = addresses })
    → expand_control_plane_options (
        flatten_lke_cluster_control_plane cp
          (some (record { enabled = enabled; addresses = addresses })))
      ≡ ok (options_of cp (record { enabled = enabled; addresses = addresses }))
unfolding expand_control_plane_options flatten_lke_cluster_control_plane expand_acl_options
    expand_acl_address_options
expand-flatten_addresses cp true none served = refl
expand-flatten_addresses cp false none served = refl
expand-flatten_addresses cp enabled (some a) served =
    rw (expand-map_text (items a.ipv4) served.0, expand-map_text (items a.ipv6) served.1, served.2)
      refl

-- A control plane with the access list that the API has, written to the state and expanded again, gives
-- the options for the same control plane and access list, in which a nil list is an empty one.
pub expand-flatten_control_plane :
    (cp : ControlPlane) (acl : Acl)
    → IsServed acl
    → expand_control_plane_options (flatten_lke_cluster_control_plane cp (some acl))
      ≡ ok (options_of cp acl)
expand-flatten_control_plane cp acl served =
    expand-flatten_addresses cp acl.enabled acl.addresses served
