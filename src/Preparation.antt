-- ===== src/Preparation.antt =====
-- `PrepareSandboxInfraOperation` of
-- package/cloudshell/cp/azure/domain/vm_management/operations/PrepareSandboxInfraOperation.py: the
-- resource group, storage, keys and subnets of a new sandbox; the rules are in Sandbox.antt. Regions
-- and tags are left out. The task that creates the storage account runs in a thread of its own: here
-- it runs where it is started, and what it raises is raised where its result is awaited.
pub mod Subnets
use azure_shell.Prelude.{
  Bool, true, false, Option, none, some, List, [], ◌∷◌, ◌++◌, map, first, if◌then◌else◌, ⊤,
}
use azure_shell.Text.{Text, text, eq, contains}
use azure_shell.Errors.{Error, Result, ok, err, ErrorKind, exception}
use azure_shell.Cloud.{Azure}
use azure_shell.Cloud.Objects.{Subnet, Vnet}
use azure_shell.Effects.{M, ◌>>=◌, ◌>>◌, pure, raise, lift, handle, attempt, for_each, collect}
use azure_shell.Effects.Retry.{Retrying, is_cloud_error}
use azure_shell.Cancellation.{check_cancelled}
use azure_shell.Credentials.{SshKey, save_key_pair}
use azure_shell.Names.{format_subnet_name, prepare_storage_account_name}
use azure_shell.Networks.{
  get_virtual_networks, get_virtual_network_by_tag, update_subnet, remove_subnet,
}
use azure_shell.Networks.Creation.{create_subnet}
use azure_shell.Sandbox.{PrepareSubnet, create_subnet_nsg_rules}
use azure_shell.SecurityGroups.{get_subnets_nsg_name, create_network_security_group}
use azure_shell.SecurityGroups.Rules.{Constants}
use azure_shell.StorageAccounts.{create_storage_account}
use azure_shell.VirtualMachines.{create_resource_group}

-- the actions of a request, by their ids
pub data Action : Type 0 where
  prepare_cloud_infra : Text → Text → Action
  prepare_subnet : Text → PrepareSubnet → Action
  create_keys : Text → Action

-- the results: of a subnet with its name, of the infrastructure, and of the keys with the private key
pub data ActionResult : Type 0 where
  subnet_result : Text → Text → ActionResult
  cloud_infra_result : Text → ActionResult
  create_keys_result : Text → Text → ActionResult

-- `next((a for a in actions if action_with_cidr(a)), None)`, and its CIDR
unfoldable pub first_cidr : List Action → Option Text
first_cidr [] = none
first_cidr (prepare_cloud_infra id cidr ∷ actions) = some cidr
first_cidr (prepare_subnet id subnet ∷ actions) = some subnet.cidr
first_cidr (create_keys id ∷ actions) = first_cidr actions

-- `[a for a in actions if isinstance(a, PrepareSubnet)]`
unfoldable pub subnet_actions : List Action → List (Text × PrepareSubnet)
subnet_actions [] = []
subnet_actions (prepare_subnet id subnet ∷ actions) = (id, subnet) ∷ subnet_actions actions
subnet_actions (_ ∷ actions) = subnet_actions actions

-- `_get_action_id_by_type` for `PrepareCloudInfra` and for `CreateKeys`; `next` without a default
unfoldable pub cloud_infra_id : List Action → M Text
cloud_infra_id [] = raise (exception ErrorKind.stop_iteration (text ""))
cloud_infra_id (prepare_cloud_infra id cidr ∷ actions) = pure id
cloud_infra_id (_ ∷ actions) = cloud_infra_id actions

unfoldable pub create_keys_id : List Action → M Text
create_keys_id [] = raise (exception ErrorKind.stop_iteration (text ""))
create_keys_id (create_keys id ∷ actions) = pure id
create_keys_id (_ ∷ actions) = create_keys_id actions

-- `if not network_action: raise ValueError(…)`
unfoldable pub require_cidr : Option Text → M Text
require_cidr none =
    raise
      (exception ErrorKind.value_error (text "Actions list must contain a PrepareNetworkAction."))
require_cidr (some cidr) = pure cidr

-- `_validate_management_vnet` and `_validate_sandbox_vnet`
unfoldable pub require_vnet : Text → Option Vnet → M Vnet
require_vnet message none = raise (exception ErrorKind.vnet_not_found message)
require_vnet message (some vnet) = pure vnet

-- what the libraries decide: how the error of a `CloudError` is printed, and the resource group that
-- `re.match` finds in the id of a resource
pub record Libraries : Type 0 where
  pub error_text : Error → Text
  pub resource_group_of : Text → Option Text

-- `get_resource_group_name`, which reads a group of `None` where nothing is found
abbrev pub group_or_error : Option Text → M Text
group_or_error none =
    raise (exception ErrorKind.attribute_error (text "'NoneType' object has no attribute 'group'"))
group_or_error (some name) = pure name

unfoldable pub get_resource_group_name : Libraries → Text → M Text
get_resource_group_name libraries resource_id =
    group_or_error (libraries.resource_group_of resource_id)

-- `subnet.ip_configurations`, where there may be none
abbrev pub ids_of : Option (List Text) → List Text
ids_of none = []
ids_of (some ids) = ids

module _ (r : Retrying) (z : Azure) (libraries : Libraries) (management_group : Text)
    (vnet : Vnet) where
  -- `if subnet.network_security_group is not None: …`
  unfoldable pub detach_nsg : Subnet → Option Text → M ⊤
  detach_nsg subnet none = pure tt
  detach_nsg subnet (some nsg) =
      update_subnet r z management_group vnet.name subnet.name
        (record subnet { network_security_group = none })

  -- what is done to the first stale subnet
  unfoldable pub remove_stale : Option Subnet → M ⊤
  remove_stale none = pure tt
  remove_stale (some subnet) = do
    detach_nsg subnet subnet.network_security_group
    collect (ids_of subnet.ip_configurations) (get_resource_group_name libraries)
    remove_subnet r z management_group vnet.name subnet.name

  unfoldable pub cleanup_stale_data : Text → M ⊤
  cleanup_stale_data cidr = remove_stale (first (λ s. eq s.address_prefix cidr) vnet.subnets)

  -- `create_subnet_command`
  unfoldable pub create_subnet_command : Text → Text → Text → M ⊤
  create_subnet_command nsg cidr subnet_name =
      create_subnet r z management_group vnet.name subnet_name cidr (some nsg)

  -- `_create_subnet`
  unfoldable pub create_sandbox_subnet : Text → Text → Text → M ⊤
  create_sandbox_subnet nsg cidr subnet_name =
      handle (create_subnet_command nsg cidr subnet_name) λ e.
        if is_cloud_error e.kind
        then if contains (text "NetcfgInvalidSubnet") (libraries.error_text e)
          then cleanup_stale_data cidr >> create_subnet_command nsg cidr subnet_name
          else raise e
        else raise e

  -- the body of the loop over the subnets
  unfoldable pub create_requested_subnet : Text → Text → Text × PrepareSubnet → M ActionResult
  create_requested_subnet group nsg (id, subnet) =
      let subnet_name = format_subnet_name group subnet.cidr in
      create_sandbox_subnet nsg subnet.cidr subnet_name >> pure (subnet_result id subnet_name)

module _ (r : Retrying) (z : Azure) (key_pair : SshKey) where
  -- `key_pair` is what `generate_key_pair` gives
  unfoldable pub create_key_pair : Text → Text → M SshKey
  create_key_pair group storage_account_name =
      save_key_pair r z group storage_account_name key_pair >> pure key_pair

  -- `_create_storage_and_keypairs`: the private key
  unfoldable pub create_storage_and_keypairs : Text → Text → M Text
  create_storage_and_keypairs group storage_account_name = do
    create_storage_account r z group storage_account_name
    check_cancelled z
    created ← create_key_pair group storage_account_name
    check_cancelled z
    pure created.private_key

  module _ (libraries : Libraries) (k : Constants) where
    unfoldable pub prepare_connectivity :
        Text → Text → Text → List Text → List Action → M (List ActionResult)
    prepare_connectivity unique management_group group additional actions = do
      cidr ← require_cidr (first_cidr actions)
      create_resource_group r z group
      check_cancelled z
      storage ←
          attempt (create_storage_and_keypairs group (prepare_storage_account_name unique group))
      virtual_networks ← get_virtual_networks r z management_group
      check_cancelled z
      management_vnet ←
          require_vnet (text "Could not find Management Virtual Network in Azure.")
            (get_virtual_network_by_tag virtual_networks (text "network_type") (text "mgmt"))
      sandbox_vnet ←
          require_vnet (text "Could not find Sandbox Virtual Network in Azure.")
            (get_virtual_network_by_tag virtual_networks (text "network_type") (text "sandbox"))
      let nsg_name = get_subnets_nsg_name group
      nsg ← create_network_security_group r z k group nsg_name
      check_cancelled z
      create_subnet_nsg_rules r z k group nsg_name management_vnet.address_prefixes
          sandbox_vnet.address_prefixes cidr additional
          (map (λ action. action.1) (subnet_actions actions))
      check_cancelled z
      results ←
          collect (subnet_actions actions)
            (create_requested_subnet r z libraries management_group sandbox_vnet group nsg.name)
      check_cancelled z
      private_key ← lift storage
      infra_id ← cloud_infra_id actions
      keys_id ← create_keys_id actions
      pure (results ++ cloud_infra_result infra_id ∷ create_keys_result keys_id private_key ∷ [])
