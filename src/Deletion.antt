-- ===== src/Deletion.antt =====
-- `DeleteAzureVMOperation` of
-- package/cloudshell/cp/azure/domain/vm_management/operations/delete_operation.py, with the methods
-- of package/cloudshell/cp/azure/domain/services/virtual_machine_service.py and
-- package/cloudshell/cp/azure/domain/services/storage_service.py that it calls.
pub mod Cleanup
pub mod Commands
pub mod Machine
use azure_shell.Prelude.{
  ℕ, Bool, true, false, not, ◌&&◌, Option, none, some, List, [], ◌∷◌, ◌++◌, map, keep, first,
  last_or, if◌then◌else◌, ⊤,
}
use azure_shell.Text.{Text, text, is_empty, eq, contains, starts_with}
use azure_shell.Text.Edit.{split}
use azure_shell.Errors.{Error, ErrorKind, exception, Result, ok, err}
use azure_shell.Cloud.{
  Azure, get_nic, get_vm, delete_vm, delete_managed_disk, delete_blob, delete_resource_group,
  remove_lock,
}
use azure_shell.Cloud.Objects.{Nic, Vm, IpConfiguration, OsDisk, Subnet, Vnet}
use azure_shell.Effects.{
  M, ◌>>=◌, ◌>>◌, pure, raise, lift, call, handle, attempt, for_each, collect,
}
use azure_shell.Effects.Retry.{Retrying, retry5, is_cloud_error}
use azure_shell.SecurityGroups.{first_configuration}
use azure_shell.Networks.{
  is_static_allocation, get_sandbox_virtual_network, update_subnet, remove_subnet, delete_nics,
  delete_ips, delete_nsg_artifacts_associated_with_vm,
}
use azure_shell.Blobs.{parse_blob_url}
use azure_shell.Ips
use azure_shell.Ips.{sandbox_lock_key}

-- `e.response.reason == "Not Found"` of a `CloudError`
unfoldable pub is_not_found : Error → Bool
is_not_found e = is_cloud_error e.kind && eq e.reason (text "Not Found")

-- `DeleteAzureVMOperation._find_sandbox_subnets`; an absent network has no attribute `subnets`
unfoldable pub find_sandbox_subnets : Text → Option Vnet → M (List Subnet)
find_sandbox_subnets group none =
    raise
      (exception ErrorKind.attribute_error (text "'NoneType' object has no attribute 'subnets'"))
find_sandbox_subnets group (some vnet) =
    pure (keep (λ subnet. starts_with subnet.name group) vnet.subnets)

-- `vnet.name`, where the network is there
abbrev pub vnet_name : Option Vnet → Text
vnet_name none = []
vnet_name (some vnet) = vnet.name

-- the subnet with neither security group nor route table
abbrev pub detached : Subnet → Subnet
detached subnet = record subnet { network_security_group = none; route_table = none }

-- an action of a request: its type and its id
abbrev pub Action : Type 0
Action = Text × Text

-- the result of `cleanup_connectivity`: `errorMessage` is there if there are errors, and lists them
pub record CleanupResult : Type 0 where
  pub action_id : Text
  pub success : Bool
  pub errors : List Text

-- the message of an exception, in front of those of the later commands
abbrev pub add_message : Result ⊤ → List Text → List Text
add_message (ok _) messages = messages
add_message (err e) messages = e.message ∷ messages

-- `if errors: result['success'] = False`
abbrev pub is_success : List Text → Bool
is_success [] = true
is_success (e ∷ es) = false

-- `for command in …: try: command() except Exception as e: errors.append(e.message)`
unfoldable pub run_all : List (M ⊤) → M (List Text)
run_all [] = pure []
run_all (command ∷ commands) =
    attempt command >>= λ outcome. run_all commands >>= λ errors. pure (add_message outcome errors)

-- The commands of `delete`: a resource that is not found is passed over, any other exception ends
-- the operation.
unfoldable pub run_commands : List (M ⊤) → M ⊤
run_commands [] = pure tt
run_commands (command ∷ commands) =
    handle command (λ e. if is_not_found e then pure tt else raise e) >>= λ _. run_commands commands

-- `id.split('/')[-1]`
unfoldable pub last_part : Text → Text
last_part id = last_or [] (split b'/' id)

-- the names of the public addresses of the first configurations
unfoldable pub public_ip_names : List Nic → List Text
public_ip_names [] = []
public_ip_names (nic ∷ nics) = elim nic.ip_configurations [
  | [] ↦ public_ip_names nics
  | c ∷ cs ↦ elim c.public_ip_address [
    | none ↦ public_ip_names nics
    | some id ↦ last_part id ∷ public_ip_names nics
  ]
]

-- `[nic.ip_configurations[0].private_ip_address for nic in network_interfaces if
-- is_static_allocation(nic.ip_configurations[0].private_ip_allocation_method)]`
unfoldable pub static_private_ips : List Nic → M (List Text)
static_private_ips [] = pure []
static_private_ips (nic ∷ nics) = first_configuration nic >>= λ c.
    static_private_ips nics >>= λ ips. pure (
      if is_static_allocation c.private_ip_allocation_method
      then c.private_ip_address ∷ ips
      else ips)

-- `next(iter(actions))`
unfoldable pub action_id_of : Option Action → M Text
action_id_of none = raise (exception ErrorKind.stop_iteration (text ""))
action_id_of (some action) = pure action.1

-- `next(iter(filter(lambda x: x.type == "cleanupNetwork", request.actions))).actionId`
unfoldable pub cleanup_action_id : List Action → M Text
cleanup_action_id actions =
    action_id_of (first (λ action. eq action.0 (text "cleanupNetwork")) actions)

-- a `CloudError` of `get_vm` is passed over
unfoldable pub found_vm : Result Vm → M (Option Vm)
found_vm (ok vm) = pure (some vm)
found_vm (err e) = if is_cloud_error e.kind then pure none else raise e

module _ (r : Retrying) (z : Azure) where
  unfoldable pub remove_nsg_and_routetable_from_subnets : Text → Text → M ⊤
  remove_nsg_and_routetable_from_subnets management_group group = do
    vnet ← get_sandbox_virtual_network r z management_group
    subnets ← find_sandbox_subnets group vnet
    for_each subnets
        λ subnet. update_subnet r z management_group (vnet_name vnet) subnet.name (detached subnet)

  -- `VirtualMachineService.delete_resource_group`
  unfoldable pub remove_resource_group : Text → M ⊤
  remove_resource_group group = retry5 r (call (delete_resource_group group) z.done)

  unfoldable pub delete_sandbox_subnets : Text → Text → M ⊤
  delete_sandbox_subnets management_group group = do
    vnet ← get_sandbox_virtual_network r z management_group
    subnets ← find_sandbox_subnets group vnet
    for_each subnets λ subnet. remove_subnet r z management_group (vnet_name vnet) subnet.name

  unfoldable pub cleanup_connectivity : Text → Text → List Action → M CleanupResult
  cleanup_connectivity management_group group actions = do
    action_id ← cleanup_action_id actions
    errors ← run_all (
        remove_nsg_and_routetable_from_subnets management_group group
        ∷ remove_resource_group group
        ∷ delete_sandbox_subnets management_group group
        ∷ [])
    call (remove_lock group) (λ h. ok tt)
    call (remove_lock (sandbox_lock_key group)) (λ h. ok tt)
    pure (record { action_id = action_id; success = is_success errors; errors = errors })

  -- `VirtualMachineService.delete_vm`
  unfoldable pub remove_vm : Text → Text → M ⊤
  remove_vm group vm_name = retry5 r (call (delete_vm group vm_name) z.done)

  unfoldable pub remove_managed_disk : Text → Text → M ⊤
  remove_managed_disk group disk_name = retry5 r (call (delete_managed_disk group disk_name) z.done)

  -- `try: vm = get_vm(…) except CloudError: … else: commands.append(…)`
  unfoldable pub find_vm : Text → Text → M (Option Vm)
  find_vm group vm_name = attempt (retry5 r (call (get_vm group vm_name) z.vm)) >>= found_vm

  -- `if private_ips: release_ips(…)`, whose exceptions are passed over
  unfoldable pub try_release : Text → List Text → M ⊤
  try_release group [] = pure tt
  try_release group (ip ∷ ips) = handle (Ips.release z group (ip ∷ ips)) (λ e. pure tt)

  module _ (urlparse : Text → Text × Text) where
    -- the branches of `_delete_vm_disk`, with `_delete_vhd_disk` and `_delete_managed_disk`, on
    -- `vm.storage_profile.os_disk.vhd`. The call that deletes the blob includes what gets the blob
    -- service.
    unfoldable pub delete_disk : Text → Vm → Option Text → M ⊤
    delete_disk group vm (some uri) = lift (parse_blob_url urlparse uri) >>= λ url.
        call (delete_blob group url.storage_name url.container_name url.blob_name) z.done
    delete_disk group vm none =
        if vm.os_disk.managed_disk
        then remove_managed_disk group vm.os_disk.name
        else raise (
            exception ErrorKind.value_error (
              text "Supported os data disk not found in VM "
              ++ vm.name
              ++ text " so cannot delete data disk"))

    -- `_delete_vm_disk`
    unfoldable pub delete_vm_disk : Text → Vm → M ⊤
    delete_vm_disk group vm = delete_disk group vm vm.os_disk.vhd

    -- the command for the disk, where the VM was read
    unfoldable pub disk_commands : Text → Option Vm → List (M ⊤)
    disk_commands group none = []
    disk_commands group (some vm) = delete_vm_disk group vm ∷ []

    -- `DeleteAzureVMOperation.delete`
    unfoldable pub delete : Text → Text → M ⊤
    delete group vm_name = do
      vm ← call (get_vm group vm_name) z.vm
      let names = map (λ reference. last_part reference.id) vm.network_interfaces
      nics ← collect names (λ name. call (get_nic group name) z.nic)
      private_ips ← static_private_ips nics
      vm ← find_vm group vm_name
      run_commands (
          remove_vm group vm_name
          ∷ delete_nics r z group names
          ∷ delete_ips r z group (public_ip_names nics)
          ∷ disk_commands group vm)
      delete_nsg_artifacts_associated_with_vm r z group vm_name
      try_release group private_ips
