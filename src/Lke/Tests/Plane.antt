-- ===== src/Lke/Tests/Plane.antt =====
-- The control plane and the external pools, at concrete inputs.
use terraform_provider_linod.Prelude.{String, true, false, ◌≡◌, refl, none, some, List, [], ◌∷◌, ok}
use terraform_provider_linod.Lke.ControlPlane.{
  ControlPlane, Acl, AclAddresses, expand_control_plane_options, flatten_lke_cluster_control_plane,
  options_of, expand-flatten_control_plane,
}

abbrev addresses : AclAddresses
addresses = record { ipv4 = some ("10.0.0.0/8" ∷ []); ipv6 = none }

abbrev acl : Acl
acl = record { enabled = true; addresses = some addresses }

abbrev plane : ControlPlane
plane = record { high_availability = true; audit_logs_enabled = false }

expand-flatten_control_plane_example :
    expand_control_plane_options (flatten_lke_cluster_control_plane plane (some acl))
    ≡ ok (options_of plane acl)
expand-flatten_control_plane_example = expand-flatten_control_plane plane acl ((refl, tt), tt, refl)

abbrev own_tags : List String → List String
own_tags tags = tags

abbrev tagged : List (List String)
tagged = ("a" ∷ "external" ∷ []) ∷ ("b" ∷ []) ∷ []
