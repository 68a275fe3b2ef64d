-- ===== src/Deployment/Flow.antt =====
-- `_deploy_vm_generic`: the steps of a deployment in their order, what is rolled back, and what is
-- returned.
use azure_shell.Prelude.{
  Bool, true, false, Option, none, some, List, [], ◌∷◌, ◌++◌, map, if◌then◌else◌, ⊤,
}
use azure_shell.Text.{Text, text}
use azure_shell.Errors.{Error, ok, err, ErrorKind, exception}
use azure_shell.Cloud.{Azure, write_message}
use azure_shell.Cloud.Objects.{Nic, Vm, other_text}
use azure_shell.Effects.{M, ◌>>=◌, ◌>>◌, pure, raise, call, handle, attempt}
use azure_shell.Effects.Retry.{Retrying, is_cloud_error}
use azure_shell.Cancellation.{check_cancelled}
use azure_shell.Caches.{Cache}
use azure_shell.Credentials.{SshKey}
use azure_shell.Images.{ImageDataModel, custom_image, marketplace_image}
use azure_shell.VmDetails.{VmDetails, create_details}
use azure_shell.NicRequests.{NicRequest}
use azure_shell.Networks.Creation.{get_public_ip_of}
use azure_shell.Rollback.{rollback_deployed_resources, get_ip_from_interface_name}
use azure_shell.VirtualMachines.{VmCredentials}
use azure_shell.Deployment.{DeploymentModel, CloudProviderModel, DeployData, prepare_deploy_data}
use azure_shell.Deployment.Steps.{
  Surroundings, Tracked, create_vm_common_objects, create_vm_custom_script_extension,
  expand_cloud_error_message, is_script_timeout,
}

-- `_prepare_deployed_app_attributes`: names and values
unfoldable pub prepare_deployed_app_attributes :
    Text → Text → Option Text → List (Text × Option Text)
prepare_deployed_app_attributes admin_username admin_password public_ip =
    (text "Password", some admin_password)
    ∷ (text "User", some admin_username)
    ∷ (text "Public IP", public_ip)
    ∷ []

-- `type(data.image_model) is MarketplaceImageDataModel`
unfoldable pub is_marketplace_image : ImageDataModel → Bool
is_marketplace_image (custom_image id os) = false
is_marketplace_image (marketplace_image os plan) = true

-- `DeployAppResult`
pub record DeployAppResult : Type 0 where
  pub vm_uuid : Text
  pub vm_name : Text
  pub deployed_app_address : Text
  pub deployed_app_attributes : List (Text × Option Text)
  pub vm_details_data : VmDetails

-- what the `try` block leaves: the VM, its credentials and the timeout of the script, if any
abbrev pub Created : Type 0
Created = Vm × VmCredentials × Option Error

-- `data.primary_private_ip_address`: the address of the first NIC
unfoldable pub primary_ip : List Text → Text
primary_ip [] = text ""
primary_ip (ip ∷ ips) = ip

-- the name of the interface of a request that may be `None`
abbrev pub interface_of : Option NicRequest → Option Text
interface_of none = none
interface_of (some request) = some request.interface_name

-- `next(n for n in data.nic_requests if n.is_public)`, or `none` where there is none
unfoldable pub first_public : List (Option NicRequest) → M (Option NicRequest)
first_public [] = pure none
first_public (none ∷ requests) =
    raise
      (exception ErrorKind.attribute_error (text "'NoneType' object has no attribute 'is_public'"))
first_public (some request ∷ requests) =
    if request.is_public then pure (some request) else first_public requests

module _ (r : Retrying) (z : Azure) (around : Surroundings) (is_disk_mismatch : Text → Bool)
    (d : DeploymentModel) (provider : CloudProviderModel) where
  -- `_get_public_ip_address`
  unfoldable pub get_public_ip_address : Text → Text → M (Option Text)
  get_public_ip_address group ip_name =
      if d.add_public_ip
      then (do
        public_ip ← get_public_ip_of r z group ip_name
        check_cancelled z
        pure public_ip.ip_address)
      else pure none

  unfoldable pub public_ip_of_request : Text → Option NicRequest → M (Option Text)
  public_ip_of_request group none = pure (some (text ""))
  public_ip_of_request group (some request) =
      get_public_ip_address group (get_ip_from_interface_name request.interface_name)

  -- how the `try` block goes on once a VM is there; only the script gives a
  -- `QualiScriptExecutionTimeoutException`, which is kept for its handler
  unfoldable pub run_script : DeployData → M (Option Error)
  run_script job =
      handle (create_vm_custom_script_extension r z around d provider job >> pure none)
        λ e. if is_script_timeout e.kind then pure (some e) else raise e

  module _ (action : DeployData → List Nic → VmCredentials → M Vm) where
    -- the VM, with `except CloudError`, and then its script
    unfoldable pub create_machine : DeployData → List Nic × VmCredentials → M Created
    create_machine job (nics, credentials) = do
      vm ← handle (action job nics credentials) (λ e. raise (
          if is_cloud_error e.kind
          then expand_cloud_error_message around.append_message is_disk_mismatch d e
          else e))
      check_cancelled z
      timeout ← run_script job
      pure (vm, credentials, timeout)

    unfoldable pub with_objects :
        DeployData → Tracked (List Nic × VmCredentials) → M (Tracked Created)
    with_objects job (ips, err e) = pure (ips, err e)
    with_objects job (ips, ok objects) =
        attempt (create_machine job objects) >>= λ created. pure (ips, created)

    -- the `try` block
    unfoldable pub try_block : Cache SshKey → DeployData → M (Tracked Created)
    try_block pairs job =
        create_vm_common_objects r z around d provider job pairs >>= with_objects job

    -- `except QualiScriptExecutionTimeoutException`: a message, and the deployment goes on
    unfoldable pub report_timeout : Text → Option Error → M ⊤
    report_timeout group none = pure tt
    report_timeout group (some e) =
        call
          (write_message group (
            text "<html><body><span style='color: red;'>"
            ++ e.message
            ++ text "</span></body></html>"))
          z.done

    -- the handlers of the `try` block
    unfoldable pub settle : DeployData → Tracked Created → M (List Text × Created)
    settle job (ips, err e) =
        rollback_deployed_resources r z job.group_name (map interface_of job.nic_requests)
          job.vm_name (other_text provider.private_ip_allocation_method) ips job.group_name
        >> raise e
    settle job (ips, ok (vm, credentials, timeout)) =
        report_timeout job.group_name timeout >> pure (ips, (vm, credentials, timeout))

    -- behind the `try` block: what has been deployed
    unfoldable pub describe : DeployData → List Text × Created → M DeployAppResult
    describe job (ips, (vm, credentials, timeout)) = do
      request ← first_public job.nic_requests
      public_ip ← public_ip_of_request job.group_name request
      vm_details_data ←
          create_details r z around.image_ids job.group_name vm
            (is_marketplace_image job.image_model)
      pure (record {
        vm_uuid = vm.vm_id;
        vm_name = job.vm_name;
        deployed_app_address = primary_ip ips;
        deployed_app_attributes =
            prepare_deployed_app_attributes credentials.admin_username credentials.admin_password
              public_ip;
        vm_details_data = vm_details_data;
      })

    -- everything behind the preparation
    unfoldable pub deploy_prepared : Cache SshKey → DeployData → M DeployAppResult
    deploy_prepared pairs job = do
      check_cancelled z
      tracked ← try_block pairs job
      created ← settle job tracked
      describe job created

    -- `_deploy_vm_generic`
    unfoldable pub deploy_vm_generic :
        Cache SshKey → Text → Text → Text → List Bool → M DeployAppResult
    deploy_vm_generic pairs unique postfix group network_actions =
        prepare_deploy_data r z unique postfix group d provider network_actions
        >>= deploy_prepared pairs
