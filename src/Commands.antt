-- ===== src/Commands.antt =====
-- The commands of `AzureShell` of package/cloudshell/cp/azure/azure_shell.py: what is read of the
-- resource and of the app, and the operation that is run. The contexts of logging, of errors and of
-- the session pass on what their body returns or raises and are left out, as is the encoding of
-- results as JSON; a request is given decoded. Each command asks for the clients of its cloud
-- provider, which are in Clients.
pub mod Endpoints
pub mod Deploy
pub mod Removed
pub mod Answered
pub mod Tables
use azure_shell.Prelude.{Bool, Option, none, some, List, [], ◌∷◌, map, if◌then◌else◌, ⊤}
use azure_shell.Text.{Text, text}
use azure_shell.Errors.{Result}
use azure_shell.Cloud.{Azure, write_message}
use azure_shell.Effects.{M, ◌>>=◌, ◌>>◌, pure, raise, lift, call, handle, for_each}
use azure_shell.Effects.Retry.{Retrying}
use azure_shell.AccessKey
use azure_shell.Addresses
use azure_shell.AppSecurity
use azure_shell.AppSecurity.Requests.{RequestedApp, convert_to_app_security_group_models}
use azure_shell.Autoload
use azure_shell.Caches.{Cache}
use azure_shell.Clients.{Provider}
use azure_shell.Credentials.{SshKey}
use azure_shell.Deletion
use azure_shell.Deletion.{CleanupResult, is_not_found}
use azure_shell.Deployment.{CloudProviderModel}
use azure_shell.ModelParser.{Attributes, convert_to_cloud_provider_resource_model}
use azure_shell.Power
use azure_shell.Preparation
use azure_shell.Refresh
use azure_shell.Routes
use azure_shell.Routes.{RouteTableRequest}
use azure_shell.SecurityGroups.Rules.{Constants}
use azure_shell.SecurityReport
use azure_shell.VmDetails
use azure_shell.VmDetails.{DetailsRequest, ImageIds}
use azure_shell.Commands.Endpoints.{
  Endpoint, first_endpoint, get_private_ip, get_public_ip_tuple, get_connected_resource_fullname,
}

-- the attributes by which `AzureClientsManager` is constructed
unfoldable pub provider_of : CloudProviderModel → Provider
provider_of model = record {
  subscription_id = model.azure_subscription_id;
  application_id = model.azure_application_id;
  application_key = model.azure_application_key;
  tenant = model.azure_tenant;
}

module _ (r : Retrying) (z : Azure) (decrypt : Text → Result Text) (resource : Attributes) where
  unfoldable pub cloud_provider : M CloudProviderModel
  cloud_provider = lift (convert_to_cloud_provider_resource_model decrypt resource)

  unfoldable pub get_inventory : (Text → Bool) → M ⊤
  get_inventory is_network = do
    model ← cloud_provider
    Autoload.get_inventory r z is_network model.region model.management_group_name model.vm_size
        model.additional_mgmt_networks

  unfoldable pub delete_azure_vm : (Text → Text × Text) → Text → Option (List Endpoint) → M ⊤
  delete_azure_vm urlparse group endpoints = do
    cloud_provider
    endpoint ← first_endpoint endpoints
    handle (Deletion.delete r z urlparse group endpoint.fullname)
        λ e. if is_not_found e then pure tt else raise e

  unfoldable pub cleanup_connectivity : Text → List Deletion.Action → M CleanupResult
  cleanup_connectivity group actions = do
    model ← cloud_provider
    Deletion.cleanup_connectivity r z model.management_group_name group actions

  unfoldable pub prepare_connectivity :
      SshKey
      → Preparation.Libraries
      → Constants
      → Text
      → Text
      → List Preparation.Action
      → M (List Preparation.ActionResult)
  prepare_connectivity key_pair libraries k unique group actions = do
    model ← cloud_provider
    Preparation.prepare_connectivity r z key_pair libraries k unique model.management_group_name
        group model.additional_mgmt_networks actions

  unfoldable pub power_on_vm : Text → Option (List Endpoint) → M ⊤
  power_on_vm group endpoints = do
    endpoint ← first_endpoint endpoints
    cloud_provider
    Power.power_on r z group endpoint.fullname endpoint.app_name endpoint.custom_params

  unfoldable pub power_off_vm : Text → Option (List Endpoint) → M ⊤
  power_off_vm group endpoints = do
    endpoint ← first_endpoint endpoints
    cloud_provider
    Power.power_off r z group endpoint.app_name

  unfoldable pub refresh_ip : Text → Option (List Endpoint) → M ⊤
  refresh_ip group endpoints = do
    endpoint ← first_endpoint endpoints
    private_ip ← get_private_ip endpoints
    public_ip_attr ← get_public_ip_tuple endpoints
    full_name ← get_connected_resource_fullname endpoints
    cloud_provider
    Refresh.refresh_ip r z group endpoint.app_name full_name public_ip_attr.0 private_ip
        public_ip_attr.1

  -- `_cached_key_pairs` before and after
  unfoldable pub get_access_key : Cache SshKey → Text → M (Text × Cache SshKey)
  get_access_key pairs group = do cloud_provider; AccessKey.get_access_key r z pairs group

  unfoldable pub get_application_ports : Text → Option (List Endpoint) → M Text
  get_application_ports group endpoints = do
    cloud_provider
    endpoint ← first_endpoint endpoints
    SecurityReport.get_application_ports r z group endpoint.fullname endpoint.service_attributes

  unfoldable pub get_vm_details :
      ImageIds → Text → List DetailsRequest → M (List VmDetails.VmDetails)
  get_vm_details ids group requests = do
    cloud_provider
    VmDetails.get_vm_details r z ids group requests

  unfoldable pub set_app_security_groups :
      Constants → AppSecurity.Libraries → Text → List RequestedApp → M (List AppSecurity.AppResult)
  set_app_security_groups k libraries group requested = do
    cloud_provider
    AppSecurity.set_apps_security_groups r z k libraries group
        (convert_to_app_security_group_models requested)

  unfoldable pub get_available_private_ip : Text → Text → M Text
  get_available_private_ip reservation_id subnet_cidr = do
    model ← cloud_provider
    Addresses.get_available_private_ip r z model.management_group_name
        model.private_ip_allocation_method reservation_id subnet_cidr

  -- the body of the loop over the requested tables; `request` is the text of the request
  unfoldable pub create_requested_table : Text → Text → Text → RouteTableRequest → M ⊤
  create_requested_table management_group reservation_id request table =
      call (write_message reservation_id request) z.done
      >> for_each table.routes (λ route. call (write_message reservation_id route.0) z.done)
      >> Routes.create_route_table r z table management_group reservation_id

  unfoldable pub create_route_tables : Text → Text → List RouteTableRequest → M ⊤
  create_route_tables reservation_id request tables = do
    model ← cloud_provider
    for_each tables (create_requested_table model.management_group_name reservation_id request)
