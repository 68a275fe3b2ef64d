-- ===== src/Commands/Deploy.antt =====
-- The commands of package/cloudshell/cp/azure/azure_shell.py that deploy a VM, with `Deploy` of
-- drivers/azure_shell/driver.py, which chooses one, and what
-- package/cloudshell/cp/azure/common/parsers/azure_model_parser.py makes of the network actions.
-- `single` of cloudshell-cp-core is an argument.
use azure_shell.Prelude.{ℕ, Bool, true, Option, none, some, List, [], ◌∷◌, map, if◌then◌else◌}
use azure_shell.Text.{Text, text, eq}
use azure_shell.Errors.{Result, ok, err, ErrorKind, exception}
use azure_shell.Caches.{Cache}
use azure_shell.Cloud.{Azure}
use azure_shell.Cloud.Objects.{Nic, Vm, Plan}
use azure_shell.Commands.{cloud_provider}
use azure_shell.Connections.{
  ParamsData, ConnectionParams, subnet_params, NetworkAction, parse_network_actions_data,
  connection_of,
}
use azure_shell.Credentials.{SshKey}
use azure_shell.Deployment.{DeploymentModel, CloudProviderModel, DeployData}
use azure_shell.Deployment.Flow.{DeployAppResult, deploy_vm_generic}
use azure_shell.Deployment.Steps.{
  Surroundings, create_vm_custom_image_action, create_vm_marketplace_action,
}
use azure_shell.Effects.{M, ◌>>=◌, pure, raise, lift}
use azure_shell.Effects.Retry.{Retrying}
use azure_shell.Images.{
  ImageDataModel, custom_image, marketplace_image, DeploymentImage, from_custom_image,
  from_marketplace, other_model,
}
use azure_shell.ModelParser.{
  Attributes, convert_to_deploy_azure_vm_resource_model,
  convert_to_deploy_azure_vm_from_custom_image_resource_model,
}
use azure_shell.NicRequests.{ConnectSubnet}
use azure_shell.VirtualMachines.{VmCredentials}

-- `DeployApp`: its action id, the path of the deployment, the name of the app, and the attributes of the
-- deployment and of the app
pub record DeployApp : Type 0 where
  pub action_id : Text
  pub deployment_path : Text
  pub app_name : Text
  pub attributes : Attributes
  pub app_attributes : Attributes

-- `ConnectSubnet`: its action id, `actionParams.isPublic`, and the parameters
pub record ConnectAction : Type 0 where
  pub action_id : Text
  pub is_public : Bool
  pub params : Option ParamsData

pub data RequestAction : Type 0 where
  deploy_app : DeployApp → RequestAction
  connect_subnet : ConnectAction → RequestAction
  other_action : RequestAction

-- a result of the command: of the deployment, with its action id, or of a connection, with its action
-- id and its success
pub data DeployResult : Type 0 where
  deployed : Text → DeployAppResult → DeployResult
  connected : Text → Bool → DeployResult

-- `[a for a in actions if isinstance(a, ConnectSubnet)]`
unfoldable pub network_actions_of : List RequestAction → List ConnectAction
network_actions_of [] = []
network_actions_of (connect_subnet action ∷ actions) = action ∷ network_actions_of actions
network_actions_of (_ ∷ actions) = network_actions_of actions

-- `[a for a in actions if isinstance(a, DeployApp)]`, which is what `single` looks at
unfoldable pub deploy_actions_of : List RequestAction → List DeployApp
deploy_actions_of [] = []
deploy_actions_of (deploy_app action ∷ actions) = action ∷ deploy_actions_of actions
deploy_actions_of (_ ∷ actions) = deploy_actions_of actions

-- the connections of the parsed actions; the parser returns no other actions
unfoldable pub add_connection :
    (Text → Result ℕ) → Option ConnectionParams → List ConnectSubnet → List ConnectSubnet
add_connection to_int (some (subnet_params params)) connections =
    connection_of to_int params ∷ connections
add_connection to_int _ connections = connections

unfoldable pub connections_of : (Text → Result ℕ) → Option (List NetworkAction) → List ConnectSubnet
connections_of to_int none = []
connections_of to_int (some []) = []
connections_of to_int (some (action ∷ actions)) =
    add_connection to_int action.connection_params (connections_of to_int (some actions))

unfoldable pub connections_or_error :
    (Text → Result ℕ) → Result (Option (List NetworkAction)) → Result (List ConnectSubnet)
connections_or_error to_int (err e) = err e
connections_or_error to_int (ok actions) = ok (connections_of to_int actions)

-- `parse_deploy_networking_configurations`; without configurations there is one subnet
unfoldable pub parse_deploy_networking_configurations :
    (Text → Result ℕ) → List ConnectAction → Result (List ConnectSubnet)
parse_deploy_networking_configurations to_int [] = ok []
parse_deploy_networking_configurations to_int (action ∷ actions) =
    connections_or_error to_int
      (parse_network_actions_data (some (map (λ a. (a.action_id, a.params)) (action ∷ actions))))

-- one result for each network action, which always tells of success
unfoldable pub network_results : List ConnectAction → List DeployResult
network_results actions = map (λ action. connected action.action_id true) actions

-- `data.image_model.purchase_plan`
unfoldable pub plan_of : ImageDataModel → Option Plan
plan_of (custom_image id os) = none
plan_of (marketplace_image os plan) = plan

module _ (r : Retrying) (z : Azure) (decrypt : Text → Result Text) (to_int : Text → Result ℕ)
    (around : Surroundings) (is_disk_mismatch : Text → Bool) (pairs : Cache SshKey)
    (unique postfix : Text) where
  -- `_create_vm_marketplace_action` or `_create_vm_custom_image_action`, by the class of the model
  unfoldable pub create_vm_action :
      DeploymentModel
      → CloudProviderModel
      → DeploymentImage
      → DeployData
      → List Nic
      → VmCredentials
      → M Vm
  create_vm_action d provider (from_marketplace publisher offer sku version) job nics credentials =
      create_vm_marketplace_action r z around d provider job publisher offer sku version
        (plan_of job.image_model) nics credentials
  create_vm_action d provider (from_custom_image image_name image_group) job nics credentials =
      create_vm_custom_image_action r z around d provider job image_name image_group nics
        credentials
  create_vm_action d provider other_model job nics credentials =
      raise
        (exception ErrorKind.attribute_error (text "the model of the deployment names no image"))

  -- `deploy_from_marketplace` and `deploy_from_custom_image`
  unfoldable pub deploy_image :
      DeploymentModel → CloudProviderModel → Text → List ConnectAction → M DeployAppResult
  deploy_image d provider group network_actions =
      deploy_vm_generic r z around is_disk_mismatch d provider
        (λ job nics credentials. create_vm_action d provider d.image job nics credentials) pairs
        unique postfix group (map (λ action. action.is_public) network_actions)

  module _ (resource : Attributes) (single : List DeployApp → Result DeployApp) (group : Text) where
    -- what both commands share, for the parser of the model
    unfoldable pub deploy_with :
        (Text → Attributes → Attributes → Result (List ConnectSubnet) → Result DeploymentModel)
        → List RequestAction
        → M (List DeployResult)
    deploy_with convert actions = do
      deploy_action ← lift (single (deploy_actions_of actions))
      let network_actions = network_actions_of actions
      d ← lift (
          convert deploy_action.app_name deploy_action.attributes deploy_action.app_attributes
            (parse_deploy_networking_configurations to_int network_actions))
      provider ← cloud_provider r z decrypt resource
      result ← deploy_image d provider group network_actions
      pure (deployed deploy_action.action_id result ∷ network_results network_actions)

    unfoldable pub deploy_azure_vm : List RequestAction → M (List DeployResult)
    deploy_azure_vm actions =
        deploy_with (convert_to_deploy_azure_vm_resource_model decrypt to_int) actions

    unfoldable pub deploy_vm_from_custom_image : List RequestAction → M (List DeployResult)
    deploy_vm_from_custom_image actions =
        deploy_with (convert_to_deploy_azure_vm_from_custom_image_resource_model decrypt to_int)
          actions

    -- `self.deployments[deployment_name]`
    unfoldable pub deploy_by_path : Text → List RequestAction → M (List DeployResult)
    deploy_by_path path actions =
        if eq path (text "Azure VM From Marketplace")
        then deploy_azure_vm actions
        else if eq path (text "Azure VM From Custom Image")
        then deploy_vm_from_custom_image actions
        else raise (exception ErrorKind.plain_exception (text "Could not find the deployment"))

    -- `AzureShellDriver.Deploy`
    unfoldable pub deploy : List RequestAction → M (List DeployResult)
    deploy actions = do
      deploy_action ← lift (single (deploy_actions_of actions))
      deploy_by_path deploy_action.deployment_path actions
