-- ===== src/Details.antt =====
-- `VmDetailsProvider` of package/cloudshell/cp/azure/domain/common/vm_details_provider.py, as far as
-- the NICs of a VM go, and `get_name_from_resource_id` of
-- package/cloudshell/cp/azure/common/parsers/azure_resource_id_parser.py.
pub mod Addresses
use azure_shell.Prelude.{
  Bool, Option, none, some, List, [], ◌∷◌, ◌++◌, last_or, if◌then◌else◌, ◌==◌,
}
use azure_shell.Text.{Text, text}
use azure_shell.Text.Edit.{split, rstrip_by}
use azure_shell.Cloud.{Azure, get_nic}
use azure_shell.Cloud.Objects.{IpConfiguration, Nic, Vm, PublicIp}
use azure_shell.Effects.{M, ◌>>=◌, pure, call, collect}
use azure_shell.Effects.Retry.{Retrying}
use azure_shell.Networks.Creation.{get_public_ip_of}
use azure_shell.Rollback.{get_ip_from_interface_name}
use azure_shell.SecurityGroups.{first_configuration}

unfoldable pub get_name_from_resource_id : Text → Text
get_name_from_resource_id resource_id =
    last_or [] (split b'/' (rstrip_by (λ c. c == b'/') resource_id))

-- `VmDetailsNetworkInterface`; a property of `networkData` is its key and its value
pub record NetworkInterface : Type 0 where
  pub interface_id : Text
  pub network_id : Text
  pub is_primary : Bool
  pub network_data : List (Text × Option Text)
  pub private_ip_address : Text
  pub public_ip_address : Text

-- `current_interface`, which is built with `public_ip = ''`; its list of properties is extended later
unfoldable pub current_interface :
    Nic → IpConfiguration → List (Text × Option Text) → NetworkInterface
current_interface nic configuration more = record {
  interface_id = nic.resource_guid;
  network_id = last_or [] (split b'/' configuration.subnet);
  is_primary = nic.primary;
  network_data =
      (text "IP", some configuration.private_ip_address) ∷ more
      ++ (text "MAC Address", some nic.mac_address) ∷ [];
  private_ip_address = configuration.private_ip_address;
  public_ip_address = text "";
}

module _ (r : Retrying) (z : Azure) where
  -- `if ip_configuration.public_ip_address`: the properties of the public address
  unfoldable pub public_properties : Text → Text → Option Text → M (List (Text × Option Text))
  public_properties group nic_name none = pure []
  public_properties group nic_name (some id) = do
    public_ip ← get_public_ip_of r z group (get_ip_from_interface_name nic_name)
    pure (
        (text "Public IP", public_ip.ip_address)
        ∷ (text "Public IP Type", some public_ip.public_ip_allocation_method)
        ∷ [])

  -- the body of the loop over the references to NICs
  unfoldable pub interface_of : Text → Text → M NetworkInterface
  interface_of group nic_name = do
    nic ← call (get_nic group nic_name) z.nic
    configuration ← first_configuration nic
    more ← public_properties group nic_name configuration.public_ip_address
    pure (current_interface nic configuration more)

  -- `_get_vm_network_data`
  unfoldable pub get_vm_network_data : Vm → Text → M (List NetworkInterface)
  get_vm_network_data vm group =
      collect vm.network_interfaces
        λ reference. interface_of group (get_name_from_resource_id reference.id)
