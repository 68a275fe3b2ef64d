-- ===== src/Commands/Removed.antt =====
-- What the command that deletes a VM makes of a VM that is not there.
use azure_shell.Prelude.{◌≡◌, true, some, List, ◌∷◌}
use azure_shell.Text.{Text}
use azure_shell.Errors.{Error, Result, ok, err}
use azure_shell.Cloud.{Azure, History, get_vm}
use azure_shell.Commands.{cloud_provider, delete_azure_vm}
use azure_shell.Commands.Endpoints.{Endpoint, first_endpoint}
use azure_shell.Deletion.{delete, is_not_found}
use azure_shell.Deployment.{CloudProviderModel}
use azure_shell.Effects.{◌>>=◌, pure, raise, lift, call, handle}
use azure_shell.Effects.Retry.{Retrying}
use azure_shell.ModelParser.{Attributes, convert_to_cloud_provider_resource_model}

-- When Azure does not find the VM that is to be deleted, the command succeeds, and has made no other
-- call: what else the deployment of the VM created is left.
pub delete_azure_vm_leaves :
    (r : Retrying) (z : Azure) (decrypt : Text → Result Text) (resource : Attributes)
    (urlparse : Text → Text × Text) (group : Text) (endpoint : Endpoint) (endpoints : List Endpoint)
    (model : CloudProviderModel) (e : Error) (h : History)
    → convert_to_cloud_provider_resource_model decrypt resource ≡ ok model
    → z.vm (get_vm group endpoint.fullname ∷ h) ≡ err e
    → is_not_found e ≡ true
    → delete_azure_vm r z decrypt resource urlparse group (some (endpoint ∷ endpoints)) h
      ≡ (ok tt, get_vm group endpoint.fullname ∷ h)
unfolding delete_azure_vm cloud_provider first_endpoint delete ◌>>=◌ pure raise lift call handle
delete_azure_vm_leaves r z decrypt resource urlparse group endpoint endpoints model e h known
      missing absent =
    rw (known, missing, absent)
