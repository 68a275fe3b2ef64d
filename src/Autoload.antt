-- ===== src/Autoload.antt =====
-- `AutoloadOperation` of
-- package/cloudshell/cp/azure/domain/vm_management/operations/autoload_operation.py: the checks of a
-- cloud provider resource. Connecting to Azure is left out; networks are decided by `netaddr`.
pub mod Accepted
use azure_shell.Prelude.{
  Bool, true, false, not, ◌&&◌, ◌||◌, Option, none, some, List, [], ◌∷◌, ◌++◌, if◌then◌else◌, ⊤,
  keep,
}
use azure_shell.Text.{Text, text, eq, is_empty, contains}
use azure_shell.Errors.{Error, Result, ok, err, ErrorKind, exception}
use azure_shell.Cloud.{Azure, get_resource_group, register_provider, list_regions, list_vm_sizes}
use azure_shell.Cloud.Objects.{Vnet, Subnet}
use azure_shell.Effects.{M, ◌>>=◌, ◌>>◌, pure, raise, call, handle, attempt, for_each}
use azure_shell.Effects.Retry.{Retrying, retry5, is_cloud_error}
use azure_shell.VirtualMachines.{get_resource_group_of, list_virtual_machine_sizes}
use azure_shell.Networks.{get_virtual_networks, get_virtual_network_by_tag}

abbrev pub refuse : {A : Type 0} → Text → M A
refuse message = raise (exception ErrorKind.autoload_exception message)

-- `x in xs`
unfoldable pub is_in : Text → List Text → Bool
is_in x [] = false
is_in x (y ∷ ys) = eq x y || is_in x ys

-- `_validate_cidr_format`; `is_network` tells whether `netaddr.IPNetwork` accepts a text
unfoldable pub validate_cidr_format : (Text → Bool) → Text → Bool
validate_cidr_format is_network cidr = is_network cidr && contains (text "/") cidr

-- the loop over networks, with the name of the attribute in the message
unfoldable pub validate_cidrs : (Text → Bool) → Text → List Text → M ⊤
validate_cidrs is_network attribute [] = pure tt
validate_cidrs is_network attribute (cidr ∷ cidrs) =
    if validate_cidr_format is_network cidr
    then validate_cidrs is_network attribute cidrs
    else refuse (
        text "CIDR "
        ++ cidr
        ++ text " under the \""
        ++ attribute
        ++ text "\" attribute is not in the valid format")

-- `_validate_additional_mgmt_networks`
unfoldable pub validate_additional_mgmt_networks : (Text → Bool) → List Text → M ⊤
validate_additional_mgmt_networks is_network networks =
    validate_cidrs is_network (text "Additional Mgmt Networks") networks

-- the prefixes of the subnets that are not in use
unfoldable pub unlisted_cidrs : List Text → List Subnet → List Text
unlisted_cidrs networks [] = []
unlisted_cidrs networks (s ∷ subnets) =
    let rest = unlisted_cidrs networks subnets in
    if is_in s.address_prefix networks then rest else s.address_prefix ∷ rest

-- `joined` is the text of a set of networks, in the order of the set
unfoldable pub require_listed : (List Text → Text) → Text → List Text → M ⊤
require_listed joined vnet [] = pure tt
require_listed joined vnet (cidr ∷ cidrs) = refuse (
    text "The following subnets \""
    ++ joined (cidr ∷ cidrs)
    ++ text "\" were found under the \""
    ++ vnet
    ++ text "\" VNet in Azure and should be set in the \"Network In Use\" field.")

-- `_validate_networks_in_use`, which nothing calls
unfoldable pub validate_networks_in_use :
    (Text → Bool) → (List Text → Text) → Vnet → List Text → M ⊤
validate_networks_in_use is_network joined vnet networks =
    validate_cidrs is_network (text "Networks In Use") networks
    >> require_listed joined vnet.name (unlisted_cidrs networks vnet.subnets)

-- `_validate_vnet`
unfoldable pub found_vnet : Text → Text → Option Vnet → M Vnet
found_vnet group tag none = refuse (
    text "Failed to find Vnet with network type \""
    ++ tag
    ++ text "\" tag under Management group "
    ++ group)
found_vnet group tag (some vnet) = pure vnet

unfoldable pub validate_vnet : List Vnet → Text → Text → M Vnet
validate_vnet virtual_networks group tag =
    found_vnet group tag (get_virtual_network_by_tag virtual_networks (text "network_type") tag)

module _ (r : Retrying) (z : Azure) where
  -- `_validate_region`
  unfoldable pub validate_region : Text → M ⊤
  validate_region region =
      if is_empty region
      then refuse (text "Region attribute can not be empty")
      else (retry5 r (call list_regions z.regions) >>= λ available.
          if is_in region available
          then pure tt
          else refuse (text "Region \"" ++ region ++ text "\" is not a valid Azure Geo-location"))

  -- the branches of `_validate_mgmt_resource_group` on what `get_resource_group` gave
  unfoldable pub check_location : Text → Text → Result Text → M ⊤
  check_location group region (err e) =
      if is_cloud_error e.kind
      then refuse (text "Failed to find Management group " ++ group)
      else raise e
  check_location group region (ok location) =
      if eq region location
      then pure tt
      else refuse (
          text "Management group "
          ++ group
          ++ text " is not under the "
          ++ region
          ++ text " region")

  unfoldable pub validate_mgmt_resource_group : Text → Text → M ⊤
  validate_mgmt_resource_group group region =
      attempt (get_resource_group_of r z group) >>= check_location group region

  -- `_validate_vm_size`
  unfoldable pub validate_vm_size : Text → Text → M ⊤
  validate_vm_size region vm_size = list_virtual_machine_sizes r z region >>= λ sizes.
      if is_in vm_size sizes
      then pure tt
      else refuse (text "VM Size " ++ vm_size ++ text " is not valid")

  -- `_register_azure_providers`
  unfoldable pub register_azure_providers : M ⊤
  register_azure_providers =
      for_each
        (text "Microsoft.Authorization"
          ∷ text "Microsoft.Storage"
          ∷ text "Microsoft.Network"
          ∷ text "Microsoft.Compute"
          ∷ [])
        λ provider. call (register_provider provider) z.done

  -- `get_inventory`, with the attributes of the cloud provider that it reads
  unfoldable pub get_inventory : (Text → Bool) → Text → Text → Text → List Text → M ⊤
  get_inventory is_network region management_group vm_size additional = do
    validate_region region
    register_azure_providers
    validate_mgmt_resource_group management_group region
    virtual_networks ← get_virtual_networks r z management_group
    sandbox_vnet ← validate_vnet virtual_networks management_group (text "sandbox")
    validate_vnet virtual_networks management_group (text "mgmt")
    if is_empty vm_size then pure tt else validate_vm_size region vm_size
    validate_additional_mgmt_networks is_network additional
