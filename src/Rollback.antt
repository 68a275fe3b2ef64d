-- ===== src/Rollback.antt =====
-- What `DeployAzureVMOperation` of
-- package/cloudshell/cp/azure/domain/vm_management/operations/deploy_operation.py deletes when a
-- deployment raises.
pub mod Releases
pub mod Undone
use azure_shell.Prelude.{Option, none, some, List, [], ◌∷◌, ◌++◌, if◌then◌else◌, ⊤}
use azure_shell.Text.{Text, text}
use azure_shell.Errors.{ErrorKind, exception}
use azure_shell.Cloud.{Azure}
use azure_shell.Cloud.Objects.{AllocationMethod}
use azure_shell.Effects.{M, ◌>>=◌, ◌>>◌, pure, raise, handle, for_each}
use azure_shell.Effects.Retry.{Retrying}
use azure_shell.Networks.{
  is_static_allocation, remove_nic, remove_ip, delete_nsg_artifacts_associated_with_vm,
}
use azure_shell.Ips
use azure_shell.Deletion.{remove_vm}

unfoldable pub get_ip_from_interface_name : Text → Text
get_ip_from_interface_name interface_name = interface_name ++ text "_PublicIP"

module _ (r : Retrying) (z : Azure) where
  -- the body of the loop over the requests for NICs, given by the names of the interfaces; a request
  -- may be `None`
  unfoldable pub remove_interface : Text → Option Text → M ⊤
  remove_interface group none = raise (
      exception ErrorKind.attribute_error
        (text "'NoneType' object has no attribute 'interface_name'"))
  remove_interface group (some name) = do
    remove_nic r z group name
    remove_ip r z group (get_ip_from_interface_name name)

  -- `if is_static_allocation(…): try: release_ips(…) except: …`
  unfoldable pub release_static : Text → AllocationMethod → List Text → M ⊤
  release_static reservation_id method ips =
      if is_static_allocation method
      then handle (Ips.release z reservation_id ips) (λ e. pure tt)
      else pure tt

  -- `_rollback_deployed_resources`
  unfoldable pub rollback_deployed_resources :
      Text → List (Option Text) → Text → AllocationMethod → List Text → Text → M ⊤
  rollback_deployed_resources group interfaces vm_name method ips reservation_id = do
    remove_vm r z group vm_name
    for_each interfaces (remove_interface group)
    release_static reservation_id method ips
    delete_nsg_artifacts_associated_with_vm r z group vm_name
