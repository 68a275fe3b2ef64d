-- ===== src/VmDetails.antt =====
-- `VmDetailsOperation` of
-- package/cloudshell/cp/azure/domain/vm_management/operations/vm_details_operation.py, and what
-- `VmDetailsProvider` of package/cloudshell/cp/azure/domain/common/vm_details_provider.py tells of a VM
-- itself. What `re` finds in the id of an image is an argument.
pub mod Prefix
use azure_shell.Prelude.{Bool, true, false, Option, none, some, List, [], ◌∷◌, if◌then◌else◌}
use azure_shell.Text.{Text, text, eq}
use azure_shell.Errors.{Result, ok, err, ErrorKind, exception}
use azure_shell.Cloud.{Azure}
use azure_shell.Cloud.Objects.{Vm, StorageType, standard_lrs, premium_lrs}
use azure_shell.Details.{NetworkInterface, get_vm_network_data}
use azure_shell.Effects.{M, ◌>>=◌, pure, raise, lift, attempt}
use azure_shell.Effects.Retry.{Retrying}
use azure_shell.Preparation.{group_or_error}
use azure_shell.VirtualMachines.{get_vm_of}

-- a request, by the name of its app and the names of the attributes of its deployment service
pub record DetailsRequest : Type 0 where
  pub app_name : Text
  pub attribute_names : List Text

-- `VmDetailsData`
pub record VmDetails : Type 0 where
  pub app_name : Text
  pub vm_instance_data : List (Text × Text)
  pub vm_network_data : List NetworkInterface
  pub error_message : Text

-- what `re.match` finds in the id of an image: the group of its name, and that of its resource group
pub record ImageIds : Type 0 where
  pub image_name : Text → Option Text
  pub group_name : Text → Option Text

-- `AzureResourceIdParser.get_image_name`
unfoldable pub get_image_name : Option Text → Text
get_image_name none = text ""
get_image_name (some name) = name

-- whether `filter(lambda x: x.name == "Image SKU", attributes)` is not empty
unfoldable pub is_market_place : List Text → Bool
is_market_place [] = false
is_market_place (name ∷ names) = if eq name (text "Image SKU") then true else is_market_place names

-- `'HDD' if … == StorageAccountTypes.standard_lrs else 'SSD'`
unfoldable pub drive : StorageType → Text
drive standard_lrs = text "HDD"
drive premium_lrs = text "SSD"

-- `os_disk.managed_disk.storage_account_type`, where there is a managed disk
unfoldable pub disk_type : Vm → M Text
disk_type vm =
    if vm.os_disk.managed_disk
    then pure (drive vm.os_disk.storage_account_type)
    else raise (
        exception ErrorKind.attribute_error
          (text "'NoneType' object has no attribute 'storage_account_type'"))

-- `_get_vm_instance_data_for_market_place`
unfoldable pub get_vm_instance_data_for_market_place : Vm → M (List (Text × Text))
get_vm_instance_data_for_market_place vm = do
  disk ← disk_type vm
  pure (
      (text "Image Publisher", vm.image_reference.publisher)
      ∷ (text "Image Offer", vm.image_reference.offer)
      ∷ (text "Image SKU", vm.image_reference.sku)
      ∷ (text "VM Size", vm.vm_size)
      ∷ (text "Operating System", vm.os_disk.os_type)
      ∷ (text "Disk Type", disk)
      ∷ [])

-- `except Exception as e`, and `result.appName = vm_name` in both cases
unfoldable pub settled : Text → Result VmDetails → VmDetails
settled app_name (ok details) = record details { app_name = app_name }
settled app_name (err e) = record {
  app_name = app_name;
  vm_instance_data = [];
  vm_network_data = [];
  error_message = e.message;
}

module _ (r : Retrying) (z : Azure) (ids : ImageIds) (group : Text) where
  -- `_get_vm_instance_data_for_custom_image`
  unfoldable pub get_vm_instance_data_for_custom_image : Vm → M (List (Text × Text))
  get_vm_instance_data_for_custom_image vm = do
    let image_name = get_image_name (ids.image_name vm.image_reference.id)
    resource_group ← group_or_error (ids.group_name vm.image_reference.id)
    disk ← disk_type vm
    pure (
        (text "Image", image_name)
        ∷ (text "Image Resource Group", resource_group)
        ∷ (text "VM Size", vm.vm_size)
        ∷ (text "Operating System", vm.os_disk.os_type)
        ∷ (text "Disk Type", disk)
        ∷ [])

  -- `VmDetailsProvider.create`
  unfoldable pub create_details : Vm → Bool → M VmDetails
  create_details vm market_place = do
    instance_data ←
        if market_place
        then get_vm_instance_data_for_market_place vm
        else get_vm_instance_data_for_custom_image vm
    network_data ← get_vm_network_data r z vm group
    pure (record {
      app_name = text "";
      vm_instance_data = instance_data;
      vm_network_data = network_data;
      error_message = text "";
    })

  -- the `try` block of one request
  unfoldable pub details_of : DetailsRequest → M VmDetails
  details_of request = do
    vm ← get_vm_of r z group request.app_name
    create_details vm (is_market_place request.attribute_names)

  -- `cancellation_context.is_cancelled`
  unfoldable pub is_cancelled_now : M Bool
  is_cancelled_now h = (ok (z.is_cancelled h), h)

  unfoldable pub get_vm_details : List DetailsRequest → M (List VmDetails)
  get_vm_details [] = pure []
  get_vm_details (request ∷ requests) = is_cancelled_now >>= λ is_cancelled.
      if is_cancelled
      then pure []
      else attempt (details_of request) >>= λ outcome.
          get_vm_details requests >>= λ results. pure (settled request.app_name outcome ∷ results)
