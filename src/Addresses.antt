-- ===== src/Addresses.antt =====
-- `IPAddressOperation` of
-- package/cloudshell/cp/azure/domain/networking_management/operations/ip_operation.py.
pub mod Validated
use azure_shell.Prelude.{Bool, Option, none, some, List, ◌++◌, if◌then◌else◌, ⊤}
use azure_shell.Text.{Text, text, eq}
use azure_shell.Text.Edit.{lower}
use azure_shell.Errors.{ErrorKind, exception}
use azure_shell.Cloud.{Azure, get_subnet}
use azure_shell.Cloud.Objects.{Vnet}
use azure_shell.Effects.{M, ◌>>=◌, ◌>>◌, pure, raise, call}
use azure_shell.Effects.Retry.{Retrying}
use azure_shell.Names.{format_subnet_name}
use azure_shell.Networks.{get_sandbox_virtual_network}
use azure_shell.Ips.{get_next_available_ip_from_cs_pool}

-- `sandbox_vnet.name`
unfoldable pub name_of : Option Vnet → M Text
name_of none =
    raise (exception ErrorKind.attribute_error (text "'NoneType' object has no attribute 'name'"))
name_of (some vnet) = pure vnet.name

-- `_validate_allocation_method`
unfoldable pub validate_allocation_method : Text → M ⊤
validate_allocation_method method =
    if eq (lower method) (text "cloudshell allocation")
    then pure tt
    else raise (
        exception ErrorKind.value_error (
          text
            "GetAvailablePrivateIP is supported only when the cloud provider 'Private IP Allocation Method' attribute is set to Cloudshell Allocation. Current allocation method is "
          ++ method))

module _ (r : Retrying) (z : Azure) (management_group : Text) where
  -- `_validate_subnet_exists`: a `CloudError` of the lookup is raised again
  unfoldable pub validate_subnet_exists : Text → Text → M ⊤
  validate_subnet_exists reservation_id subnet_cidr = do
    sandbox_vnet ← get_sandbox_virtual_network r z management_group
    vnet_name ← name_of sandbox_vnet
    call (get_subnet management_group vnet_name (format_subnet_name reservation_id subnet_cidr))
        z.done

  unfoldable pub get_available_private_ip : Text → Text → Text → M Text
  get_available_private_ip method reservation_id subnet_cidr = do
    validate_allocation_method method
    validate_subnet_exists reservation_id subnet_cidr
    get_next_available_ip_from_cs_pool z reservation_id subnet_cidr
