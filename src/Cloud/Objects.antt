-- ===== src/Cloud/Objects.antt =====
-- The objects of the Azure libraries, as far as the shell reads or writes their fields.
use azure_shell.Prelude.{ℕ, Bool, Option, List}
use azure_shell.Text.{Text}

pub record SecurityRule : Type 0 where
  pub access : Text
  pub direction : Text
  pub source_address_prefix : Text
  pub source_port_range : Text
  pub name : Text
  pub destination_address_prefix : Text
  pub destination_port_range : Text
  pub priority : ℕ
  pub protocol : Text

pub record Nsg : Type 0 where
  pub name : Text
  pub security_rules : List SecurityRule

-- `IPAllocationMethod`: a member of the enumeration, or a plain text
pub data AllocationMethod : Type 0 where
  static dynamic : AllocationMethod
  other_text : Text → AllocationMethod

-- `public_ip_address` and `subnet` are given by their ids.
pub record IpConfiguration : Type 0 where
  pub private_ip_address : Text
  pub private_ip_allocation_method : AllocationMethod
  pub public_ip_address : Option Text
  pub subnet : Text

-- `resource_guid` and `mac_address` are only passed on.
pub record Nic : Type 0 where
  pub id : Text
  pub name : Text
  pub resource_guid : Text
  pub primary : Bool
  pub mac_address : Text
  pub ip_configurations : List IpConfiguration
  pub network_security_group : Option Text

-- `PublicIPAddress`
pub record PublicIp : Type 0 where
  pub ip_address : Option Text
  pub public_ip_allocation_method : Text

-- `StorageAccountTypes`, as far as it is used
pub data StorageType : Type 0 where
  standard_lrs premium_lrs : StorageType

-- `vhd` is the URI of a VHD disk.
pub record OsDisk : Type 0 where
  pub name : Text
  pub vhd : Option Text
  pub managed_disk : Bool
  pub os_type : Text
  pub storage_account_type : StorageType

-- `NetworkInterfaceReference`
pub record NicReference : Type 0 where
  pub id : Text
  pub primary : Bool

-- `ImageReference` of a VM that is there
pub record VmImage : Type 0 where
  pub publisher : Text
  pub offer : Text
  pub sku : Text
  pub id : Text

pub record Vm : Type 0 where
  pub name : Text
  pub vm_id : Text
  pub provisioning_state : Text
  pub network_interfaces : List NicReference
  pub os_disk : OsDisk
  pub image_reference : VmImage
  pub vm_size : Text

pub record Subnet : Type 0 where
  pub name : Text
  pub address_prefix : Text
  pub network_security_group : Option Text
  pub route_table : Option Text
  pub ip_configurations : Option (List Text)

pub record Vnet : Type 0 where
  pub name : Text
  pub address_prefixes : List Text
  pub tags : Option (List (Text × Text))
  pub subnets : List Subnet

-- the NIC that a deployment asks for; the public address and the security group by their names
pub record NicRequestBody : Type 0 where
  pub private_ip_allocation_method : AllocationMethod
  pub private_ip_address : Option Text
  pub subnet : Subnet
  pub public_ip_address : Option Text
  pub network_security_group : Option Text
  pub enable_ip_forwarding : Bool

-- `OperatingSystemTypes`
pub data OperatingSystem : Type 0 where
  windows linux : OperatingSystem

-- the disk that is made from the image
pub record OsDiskBody : Type 0 where
  pub disk_size_gb : Option ℕ
  pub storage_account_type : Option StorageType

-- `Plan`, or the plan of an image
pub record Plan : Type 0 where
  pub name : Text
  pub publisher : Text
  pub product : Text

-- `ImageReference`
pub data ImageReference : Type 0 where
  custom : Text → ImageReference
  marketplace : Text → Text → Text → Text → ImageReference

-- `OSProfile`; an SSH key is its path and its data, and disables passwords
pub record OsProfile : Type 0 where
  pub admin_username : Text
  pub admin_password : Text
  pub ssh_public_key : Option (Text × Text)
  pub computer_name : Text

-- `VirtualMachine`, as a deployment asks for it
pub record VmBody : Type 0 where
  pub os_profile : OsProfile
  pub vm_size : Text
  pub network_interfaces : List NicReference
  pub os_disk : OsDiskBody
  pub image_reference : ImageReference
  pub plan : Option Plan

-- a custom image
pub record Image : Type 0 where
  pub id : Text
  pub os_type : OperatingSystem

-- an image of the marketplace
pub record MarketplaceImage : Type 0 where
  pub operating_system : OperatingSystem
  pub plan : Option Plan

-- `VirtualMachineExtension`
pub record ExtensionBody : Type 0 where
  pub publisher : Text
  pub type_handler_version : Text
  pub extension_type : Text
  pub file_uris : List Text
  pub command_to_execute : Text
