-- ===== src/Commands/Endpoints.antt =====
-- What `AzureModelsParser` of package/cloudshell/cp/azure/common/parsers/azure_model_parser.py reads of
-- the endpoints of a command.
use azure_shell.Prelude.{Option, none, some, List, [], ◌∷◌}
use azure_shell.Text.{Text, text}
use azure_shell.Errors.{ErrorKind, exception}
use azure_shell.Effects.{M, ◌>>=◌, pure, raise}
use azure_shell.ModelParser.{
  Attributes, get_attribute_value_by_name_ignoring_namespace,
  get_matching_attribute_tuple_ignoring_namespace,
}
use azure_shell.Power.{Param}

-- a remote endpoint, with the name and the custom parameters of its deployed app, and the attributes
-- of the deployment service in the request of its app
pub record Endpoint : Type 0 where
  pub fullname : Text
  pub address : Text
  pub attributes : Attributes
  pub app_name : Text
  pub custom_params : List Param
  pub service_attributes : Attributes

-- `command_context.remote_endpoints[0]`
unfoldable pub first_endpoint : Option (List Endpoint) → M Endpoint
first_endpoint none =
    raise (exception ErrorKind.type_error (text "'NoneType' object has no attribute '__getitem__'"))
first_endpoint (some []) = raise (exception ErrorKind.index_error (text "list index out of range"))
first_endpoint (some (endpoint ∷ endpoints)) = pure endpoint

-- `get_private_ip_from_connected_resource_details`
unfoldable pub get_private_ip : Option (List Endpoint) → M Text
get_private_ip none = pure (text "")
get_private_ip (some endpoints) = do
  endpoint ← first_endpoint (some endpoints)
  pure endpoint.address

abbrev pub public_ip_key : Text
public_ip_key = text "Public IP"

-- `get_public_ip_from_connected_resource_details`
unfoldable pub get_public_ip : Option (List Endpoint) → M (Option Text)
get_public_ip none = pure (some (text ""))
get_public_ip (some endpoints) = do
  endpoint ← first_endpoint (some endpoints)
  pure (get_attribute_value_by_name_ignoring_namespace endpoint.attributes public_ip_key)

-- `get_public_ip_tuple_attribute_from_connected_resource_details`
unfoldable pub get_public_ip_tuple : Option (List Endpoint) → M (Text × Option Text)
get_public_ip_tuple none = pure (public_ip_key, none)
get_public_ip_tuple (some endpoints) = do
  endpoint ← first_endpoint (some endpoints)
  pure (get_matching_attribute_tuple_ignoring_namespace endpoint.attributes public_ip_key)

-- `get_connected_resource_fullname`; an endpoint is an object, and so never false
unfoldable pub get_connected_resource_fullname : Option (List Endpoint) → M Text
get_connected_resource_fullname endpoints = do
  endpoint ← first_endpoint endpoints
  pure endpoint.fullname
