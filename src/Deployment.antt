-- ===== src/Deployment.antt =====
-- `DeployAzureVMOperation` of
-- package/cloudshell/cp/azure/domain/vm_management/operations/deploy_operation.py: what a deployment is
-- given, and what it prepares before anything is created. Regions, tags, credentials and locks are in
-- the modules that they concern.
pub mod Steps
pub mod Flow
pub mod Failures
pub mod Late
pub mod Collisions
pub mod Undone
pub mod Nics
use azure_shell.Prelude.{
  ℕ, Bool, true, false, not, ◌&&◌, Option, none, some, List, [], ◌∷◌, map, all, if◌then◌else◌, ⊤,
}
use azure_shell.Text.{Text, text, is_empty}
use azure_shell.Errors.{Result, ok, err, ErrorKind, exception}
use azure_shell.Cloud.{Azure}
use azure_shell.Cloud.Objects.{OperatingSystem}
use azure_shell.Effects.{M, ◌>>=◌, ◌>>◌, pure, raise, lift}
use azure_shell.Effects.Retry.{Retrying}
use azure_shell.Names.{normalize_name, generate_name}
use azure_shell.NicRequests.{NicRequest, ConnectSubnet, get_nic_requests}
use azure_shell.VmNames.{prepare_computer_name, prepare_vm_size}
use azure_shell.Scripts.{validate_script_extension}
use azure_shell.Images.{DeploymentImage, ImageDataModel, os_type, get_image_data_model}
use azure_shell.StorageAccounts.{get_sandbox_storage_account_name}

-- `BaseDeployAzureVMResourceModel`, with the attributes of the image of its subclasses
pub record DeploymentModel : Type 0 where
  pub app_name : Text
  pub vm_size : Text
  pub add_public_ip : Bool
  pub public_ip_type : Text
  pub inbound_ports : Text
  pub allow_all_sandbox_traffic : Text
  pub enable_ip_forwarding : Bool
  pub extension_script_file : Text
  pub extension_script_configurations : Text
  pub extension_script_timeout : ℕ
  pub username : Text
  pub password : Text
  pub disk_type : Text
  pub disk_size : Text
  pub image : DeploymentImage
  pub network_configurations : List ConnectSubnet

-- `AzureCloudProviderResourceModel`
pub record CloudProviderModel : Type 0 where
  pub management_group_name : Text
  pub vm_size : Text
  pub private_ip_allocation_method : Text
  pub additional_mgmt_networks : List Text
  pub azure_application_id : Text
  pub azure_application_key : Text
  pub azure_subscription_id : Text
  pub azure_tenant : Text
  pub region : Text
  pub networks_in_use : List Text

-- `DeployDataModel`, once it is prepared; a group is named like its reservation
pub record DeployData : Type 0 where
  pub group_name : Text
  pub image_model : ImageDataModel
  pub vm_name : Text
  pub computer_name : Text
  pub vm_size : Text
  pub enable_ip_forwarding : Bool
  pub nic_requests : List (Option NicRequest)
  pub storage_account_name : Text

-- `network_actions and all(not s.actionParams.isPublic …)`; the actions by their `isPublic`
abbrev pub all_subnets_are_private : List Bool → Bool
all_subnets_are_private [] = false
all_subnets_are_private (is_public ∷ actions) = all not (is_public ∷ actions)

unfoldable pub validate_deployment_model : DeploymentModel → OperatingSystem → List Bool → Result ⊤
validate_deployment_model d os network_actions =
    if all_subnets_are_private network_actions && d.add_public_ip
    then err (
        exception ErrorKind.value_error
          (text "Cannot deploy app with public ip when connected only to private subnets"))
    else if is_empty d.extension_script_file
    then ok tt
    else validate_script_extension os d.extension_script_file d.extension_script_configurations

-- `re.sub(…, name)` of `generate_name`, which is given `None` for an app without a name
unfoldable pub name_to_generate_from : Option Text → M Text
name_to_generate_from none =
    raise (exception ErrorKind.type_error (text "expected string or buffer"))
name_to_generate_from (some name) = pure name

-- `postfix` is the random string, `unique` the one that a name without postfix would get.
unfoldable pub prepare_deploy_data :
    Retrying
    → Azure
    → Text
    → Text
    → Text
    → DeploymentModel
    → CloudProviderModel
    → List Bool
    → M DeployData
prepare_deploy_data r z unique postfix group d provider network_actions = do
  image_model ← get_image_data_model r z d.image
  lift (validate_deployment_model d (os_type image_model) network_actions)
  app_name ← name_to_generate_from (normalize_name d.app_name)
  let vm_name = generate_name unique app_name (some postfix) 64
  vm_size ← lift (prepare_vm_size d.vm_size provider.vm_size)
  nic_requests ←
      get_nic_requests r z provider.management_group_name group vm_name d.network_configurations
  storage_account_name ← get_sandbox_storage_account_name r z group
  pure (record {
    group_name = group;
    image_model = image_model;
    vm_name = vm_name;
    computer_name = prepare_computer_name unique app_name postfix (os_type image_model);
    vm_size = vm_size;
    enable_ip_forwarding = d.enable_ip_forwarding;
    nic_requests = nic_requests;
    storage_account_name = storage_account_name;
  })
