-- ===== src/Instance/Structs.antt =====
-- The structs of linodego that the functions on instances read and fill.
use terraform_provider_linod.Prelude.{
  ℕ, String, Bool, true, false, ◌≡◌, ap, ◌↔◌, Option, List, Slice, Eq, ◌==◌, ==_iff, nat_eq,
  string_eq, bool_eq, option_eq, list_eq, pair_eq,
}

-- `linodego.InstanceStatus`
pub data Status : Type 0 where
  offline running booting rebooting shutting_down : Status
  other : String → Status

abbrev pub is_offline : Status → Bool
is_offline offline = true
is_offline _ = false

abbrev pub is_running : Status → Bool
is_running running = true
is_running _ = false

-- The fields of linodego's structs that the code reads.
pub record Instance : Type 0 where
  pub id : ℕ
  pub status : Status
  pub disk_capacity : ℕ

pub record Disk : Type 0 where
  pub id : ℕ
  pub label : String
  pub size : ℕ
  pub filesystem : String

pub record DiskCreateOptions : Type 0 where
  pub label : String
  pub filesystem : String
  pub size : ℕ
  pub image : String
  pub root_pass : String
  pub authorized_keys : List String
  pub authorized_users : List String
  pub stackscript_id : ℕ
  pub stackscript_data : Option (List (String × String))

pub data Migration : Type 0 where
  cold warm : Migration

pub record ResizeOptions : Type 0 where
  pub allow_auto_disk_resize : Bool
  pub target_type : String
  pub migration_type : Migration

pub data Action : Type 0 where
  linode_boot linode_reboot linode_shutdown linode_resize linode_migrate_datacenter : Action
  disk_create disk_delete disk_resize : Action

-- An attached volume has an instance.
pub record Volume : Type 0 where
  pub id : ℕ
  pub linode_id : Option ℕ

-- `InstanceConfigDevice`: the identifiers are 0 where they are not set.
pub record ConfigDevice : Type 0 where
  pub disk_id : ℕ
  pub volume_id : ℕ

pub record ConfigDeviceMap : Type 0 where
  pub sda : Option ConfigDevice
  pub sdb : Option ConfigDevice
  pub sdc : Option ConfigDevice
  pub sdd : Option ConfigDevice
  pub sde : Option ConfigDevice
  pub sdf : Option ConfigDevice
  pub sdg : Option ConfigDevice
  pub sdh : Option ConfigDevice

pub record ConfigHelpers : Type 0 where
  pub updatedb_disabled : Bool
  pub distro : Bool
  pub modules_dep : Bool
  pub network : Bool
  pub devtmpfs_automount : Bool

-- `VPCIPv4`: the address and the one for NAT.
abbrev pub VpcIpv4 : Type 0
VpcIpv4 = String × Option String

-- The IPv6 options: the ranges of SLAAC, the ranges, and whether it is public.
abbrev pub Ipv6Options : Type 0
Ipv6Options = Slice String × (Slice (Option String) × Option Bool)

-- `InstanceConfigInterfaceCreateOptions`
pub record InterfaceOptions : Type 0 where
  pub purpose : String
  pub primary : Bool
  pub ipam_address : String
  pub label : String
  pub subnet_id : Option ℕ
  pub ipv4 : Option VpcIpv4
  pub ipv6 : Option Ipv6Options
  pub ip_ranges : Slice String

abbrev pub InterfaceFields : Type 0
InterfaceFields =
    String
    × (Bool
        × (String × (String × (Option ℕ × (Option VpcIpv4 × (Option Ipv6Options × Slice String))))))

abbrev pub interface_fields : InterfaceOptions → InterfaceFields
interface_fields i = (
  i.purpose,
  (i.primary, (i.ipam_address, (i.label, (i.subnet_id, (i.ipv4, (i.ipv6, i.ip_ranges)))))),
)

abbrev interface_of : InterfaceFields → InterfaceOptions
interface_of (p, (r, (a, (l, (s, (v, (w, x))))))) = record {
  purpose = p;
  primary = r;
  ipam_address = a;
  label = l;
  subnet_id = s;
  ipv4 = v;
  ipv6 = w;
  ip_ranges = x;
}

unfoldable pub same_interface : InterfaceOptions → InterfaceOptions → Bool
same_interface a b = interface_fields a == interface_fields b

pub same_interface_iff : (a b : InterfaceOptions) → (same_interface a b ≡ true) ↔ (a ≡ b)
unfolding same_interface
same_interface_iff a b = (
  λ h. ap interface_of ((==_iff (interface_fields a) (interface_fields b)).0 h),
  λ e. (==_iff (interface_fields a) (interface_fields b)).1 (ap interface_fields e),
)

-- `reflect.DeepEqual` of two interfaces.
instance abbrev pub interface_eq : Eq InterfaceOptions
interface_eq = record { same = same_interface; same_iff = same_interface_iff }

-- The options that create a config, and those that update one.
pub record ConfigOptions : Type 0 where
  pub label : String
  pub kernel : String
  pub comments : String
  pub virt_mode : String
  pub run_level : String
  pub memory_limit : ℕ
  pub root_device : Option String
  pub helpers : Option ConfigHelpers
  pub interfaces : Slice InterfaceOptions
  pub devices : Option ConfigDeviceMap

-- `linodego.LinodeType`
pub record LinodeType : Type 0 where
  pub id : String
  pub disk_capacity : ℕ

-- `InstanceAlert`
pub record Alerts : Type 0 where
  pub cpu : ℕ
  pub io : ℕ
  pub network_in : ℕ
  pub network_out : ℕ
  pub transfer_quota : ℕ

pub record InstanceUpdateOptions : Type 0 where
  pub label : String
  pub group : Option String
  pub maintenance_policy : Option String
  pub tags : Option (List String)
  pub watchdog_enabled : Option Bool
  pub alerts : Option Alerts

-- A config, with the purposes of its interfaces and what linodego's GetUpdateOptions makes of it.
pub record InstanceConfig : Type 0 where
  pub id : ℕ
  pub label : String
  pub purposes : List String
  pub update_options : ConfigOptions
