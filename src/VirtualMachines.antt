-- ===== src/VirtualMachines.antt =====
-- `VirtualMachineService` of package/cloudshell/cp/azure/domain/services/virtual_machine_service.py:
-- what reads, creates, starts and stops; what it deletes is in Deletion.antt. Regions and tags are
-- left out. A wait that can be cancelled is part of the call, whose answer may be the cancellation.
pub mod Requests
use azure_shell.Prelude.{
  ℕ, Bool, true, false, ◌&&◌, not, Option, none, some, List, [], ◌∷◌, ◌++◌, map, if◌then◌else◌, ltb,
  all, last_or, ⊤,
}
use azure_shell.Text.{Text, text, eq, is_empty}
use azure_shell.Text.Decimal.{read_from}
use azure_shell.Text.Edit.{lower, upper, strip}
use azure_shell.Errors.{Result, ok, err, ErrorKind, exception}
use azure_shell.Cloud.{
  Azure, get_vm, put_vm, start_vm, deallocate_vm, get_image, list_marketplace_images,
  get_marketplace_image, put_resource_group, get_resource_group, list_vm_sizes,
}
use azure_shell.Cloud.Objects.{
  Nic, Vm, NicReference, OperatingSystem, windows, linux, StorageType, standard_lrs, premium_lrs,
  OsDiskBody, Plan, ImageReference, custom, marketplace, OsProfile, VmBody, MarketplaceImage,
}
use azure_shell.Effects.{M, ◌>>=◌, ◌>>◌, pure, raise, lift, call}
use azure_shell.Effects.Retry.{Retrying, retry5, retry_retryable}
use azure_shell.Ports.Match.{is_digit}

-- models/vm_credentials.py; an SSH key is its path and its data
pub record VmCredentials : Type 0 where
  pub admin_username : Text
  pub admin_password : Text
  pub ssh_key : Option (Text × Text)

-- `_prepare_os_profile`, with `_prepare_linux_configuration`
unfoldable pub prepare_os_profile : VmCredentials → Text → OsProfile
prepare_os_profile credentials computer_name = record {
  admin_username = credentials.admin_username;
  admin_password = credentials.admin_password;
  ssh_public_key = credentials.ssh_key;
  computer_name = computer_name;
}

unfoldable pub prepare_image_os_type : Text → OperatingSystem
prepare_image_os_type image_os_type =
    if eq (lower image_os_type) (text "linux") then linux else windows

-- `_get_storage_type`
unfoldable pub get_storage_type : Text → Option StorageType
get_storage_type disk_type =
    let name = strip (upper disk_type) in
    if eq name (text "HDD")
    then some standard_lrs
    else if eq name (text "SSD")
    then some premium_lrs
    else none

-- `s.isdigit()`
abbrev pub is_number : Text → Bool
is_number s = not (is_empty s) && all is_digit s

-- `_prepare_os_disk`
unfoldable pub prepare_os_disk : Text → Text → Result OsDiskBody
prepare_os_disk disk_type disk_size =
    if is_number disk_size
    then if ltb 1023 (read_from 0 disk_size)
      then err
          (exception ErrorKind.plain_exception (text "Disk size cannot be larger than 1023 GB"))
      else ok (record {
        disk_size_gb = some (read_from 0 disk_size);
        storage_account_type = get_storage_type disk_type;
      })
    else ok (record { disk_size_gb = none; storage_account_type = get_storage_type disk_type })

-- the references to the NICs, of which the first is primary
unfoldable pub network_interfaces : List Nic → Result (List NicReference)
network_interfaces [] = err (exception ErrorKind.index_error (text "list index out of range"))
network_interfaces (nic ∷ nics) = ok (
    record { id = nic.id; primary = true }
    ∷ map (λ other. record { id = other.id; primary = false }) nics)

-- `image_resources[-1].name`
unfoldable pub last_version : List Text → M Text
last_version [] = raise (exception ErrorKind.index_error (text "list index out of range"))
last_version (version ∷ versions) = pure (last_or version versions)

abbrev pub succeeded_provisioning_state : Text
unfolding text
succeeded_provisioning_state = text "Succeeded"

-- `if vm.provisioning_state != …: raise`
unfoldable pub require_active : Vm → M Vm
require_active vm =
    if eq vm.provisioning_state succeeded_provisioning_state
    then pure vm
    else raise (
        exception ErrorKind.plain_exception
          (text "Can't perform action. Azure instance is not in active state"))

module _ (r : Retrying) (z : Azure) where
  unfoldable pub get_vm_of : Text → Text → M Vm
  get_vm_of group vm_name = retry5 r (call (get_vm group vm_name) z.vm)

  unfoldable pub get_active_vm : Text → Text → M Vm
  get_active_vm group vm_name = get_vm_of group vm_name >>= require_active

  -- `_create_vm`
  unfoldable pub create_vm : Text → Text → VmBody → M Vm
  create_vm group vm_name body =
      retry5 r (retry_retryable r (call (put_vm group vm_name body) z.vm))

  module _ (credentials : VmCredentials) (computer_name group : Text) (nics : List Nic)
      (vm_name vm_size disk_type disk_size : Text) where
    unfoldable pub create_vm_from_custom_image : Text → Text → M Vm
    create_vm_from_custom_image image_name image_resource_group = do
      references ← lift (network_interfaces nics)
      image ← call (get_image image_resource_group image_name) z.image
      os_disk ← lift (prepare_os_disk disk_type disk_size)
      create_vm group vm_name (record {
        os_profile = prepare_os_profile credentials computer_name;
        vm_size = vm_size;
        network_interfaces = references;
        os_disk = os_disk;
        image_reference = custom image.id;
        plan = none;
      })

    unfoldable pub create_vm_from_marketplace : Text → Text → Text → Text → Option Plan → M Vm
    create_vm_from_marketplace offer publisher sku version purchase_plan = do
      references ← lift (network_interfaces nics)
      os_disk ← lift (prepare_os_disk disk_type disk_size)
      create_vm group vm_name (record {
        os_profile = prepare_os_profile credentials computer_name;
        vm_size = vm_size;
        network_interfaces = references;
        os_disk = os_disk;
        image_reference = marketplace publisher offer sku version;
        plan = purchase_plan;
      })

  unfoldable pub create_resource_group : Text → M ⊤
  create_resource_group group = retry5 r (call (put_resource_group group) z.done)

  -- the location of the group, which is all that is read of it
  unfoldable pub get_resource_group_of : Text → M Text
  get_resource_group_of group = retry5 r (call (get_resource_group group) z.location)

  -- the names of the sizes
  unfoldable pub list_virtual_machine_sizes : Text → M (List Text)
  list_virtual_machine_sizes location = retry5 r (call (list_vm_sizes location) z.vm_sizes)

  -- The result is awaited unless `async`; a call and its wait are one call here.
  unfoldable pub start_vm_of : Text → Text → M ⊤
  start_vm_of group vm_name = retry5 r (call (start_vm group vm_name) z.done)

  unfoldable pub stop_vm : Text → Text → M ⊤
  stop_vm group vm_name = retry5 r (call (deallocate_vm group vm_name) z.done)

  unfoldable pub get_virtual_machine_image : Text → Text → Text → M MarketplaceImage
  get_virtual_machine_image publisher offer skus = retry5 r (do
    versions ← call (list_marketplace_images publisher offer skus) z.image_versions
    version ← last_version versions
    call (get_marketplace_image publisher offer skus version) z.marketplace_image)
