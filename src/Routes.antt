-- ===== src/Routes.antt =====
-- `AddRouteOperation` of
-- package/cloudshell/cp/azure/domain/networking_management/operations/add_route_operation.py. The
-- lock of the subnets is left out.
pub mod Requests
use azure_shell.Prelude.{Option, none, some, List, ⊤}
use azure_shell.Text.{Text, text}
use azure_shell.Errors.{ErrorKind, exception}
use azure_shell.Cloud.{Azure}
use azure_shell.Cloud.Objects.{Vnet}
use azure_shell.Effects.{M, ◌>>=◌, ◌>>◌, pure, raise}
use azure_shell.Effects.Retry.{Retrying, retry_retryable}
use azure_shell.Networks.{get_sandbox_virtual_network}
use azure_shell.Networks.Creation

-- `RouteTableRequestResourceModel`
pub record RouteTableRequest : Type 0 where
  pub name : Text
  pub routes : List Creation.Route
  pub subnets : List Text

-- `.name` of a network that may be `None`
unfoldable pub name_of_vnet : Option Vnet → M Text
name_of_vnet none =
    raise (exception ErrorKind.attribute_error (text "'NoneType' object has no attribute 'name'"))
name_of_vnet (some vnet) = pure vnet.name

module _ (r : Retrying) (z : Azure) where
  -- one attempt
  unfoldable pub create_route_table_once : RouteTableRequest → Text → Text → M ⊤
  create_route_table_once request management_group sandbox_id = do
    vnet ← get_sandbox_virtual_network r z management_group
    sandbox_vnet ← name_of_vnet vnet
    Creation.create_route_table r z sandbox_id request.name request.routes
    Creation.add_route_table_to_subnets r z sandbox_id request.name request.subnets management_group
        sandbox_vnet

  unfoldable pub create_route_table : RouteTableRequest → Text → Text → M ⊤
  create_route_table request management_group sandbox_id =
      retry_retryable r (create_route_table_once request management_group sandbox_id)
