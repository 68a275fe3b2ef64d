-- ===== src/Connections.antt =====
-- The network actions of a request: `NetworkActionsParser` and `ConnectionParamsParser` of
-- package/cloudshell/cp/azure/domain/services/parsers/network_actions.py and connection_params.py,
-- with package/cloudshell/cp/azure/models/network_actions_models.py. `int` is an argument, for texts
-- of natural numbers; what it cannot read raises.
pub mod Parsed
use azure_shell.Prelude.{
  ℕ, Bool, true, false, ◌||◌, Option, none, some, List, [], ◌∷◌, ◌++◌, map, if◌then◌else◌,
}
use azure_shell.Text.{Text, text, eq}
use azure_shell.Text.Edit.{lower}
use azure_shell.Errors.{Result, ok, err, map_ok, ErrorKind, exception, ◌>>=◌}
use azure_shell.NicRequests.{ConnectSubnet}

-- the value of an attribute
pub data AttributeValue : Type 0 where
  no_value : AttributeValue
  text_value : Text → AttributeValue
  int_value : ℕ → AttributeValue

-- `NetworkActionAttribute`
pub record ActionAttribute : Type 0 where
  pub name : Text
  pub value : AttributeValue

-- a Boolean of a request, which may have come as a text
pub data Flag : Type 0 where
  bool_flag : Bool → Flag
  text_flag : Text → Flag

-- the parameters of an action, by class: `ConnectToSubnetParams`, perhaps with a `vnicName`, which may
-- be `None`; `PrepareSubnetParams`; `PrepareCloudInfra`; or another one
pub data ParamsData : Type 0 where
  connect_to_subnet : Text → List (Text × Text) → Text → Option AttributeValue → ParamsData
  prepare_subnet : Text → List (Text × Text) → Flag → Text → ParamsData
  prepare_cloud_infra : Text → List (Text × Text) → ParamsData
  other_params : ParamsData

-- `SubnetConnectionParams`
pub record SubnetConnectionParams : Type 0 where
  pub cidr : Text
  pub service_attributes : List ActionAttribute
  pub custom_attributes : List ActionAttribute
  pub subnet_id : Text

-- the subclasses of `ConnectionParamsBase`; `PrepareSubnetParamsData` has `is_public` and `alias`
pub data ConnectionParams : Type 0 where
  subnet_params : SubnetConnectionParams → ConnectionParams
  prepare_subnet_params : Text → List ActionAttribute → Bool → Text → ConnectionParams
  prepare_network_params : Text → List ActionAttribute → ConnectionParams

-- `NetworkAction`
pub record NetworkAction : Type 0 where
  pub id : Text
  pub connection_params : Option ConnectionParams

abbrev pub vnic_name_attribute : Text
vnic_name_attribute = text "Vnic Name"

unfoldable pub convert_to_bool : Flag → Bool
convert_to_bool (bool_flag b) = b
convert_to_bool (text_flag s) = eq s (text "true") || eq s (text "True") || eq s (text "1")

unfoldable pub parse_subnet_service_attributes : List (Text × Text) → List ActionAttribute
parse_subnet_service_attributes attributes =
    map (λ item. record { name = item.0; value = text_value item.1 }) attributes

-- `if hasattr(params_data, 'vnicName')`
unfoldable pub vnic_attributes : Option AttributeValue → List ActionAttribute
vnic_attributes none = []
vnic_attributes (some vnic_name) = record { name = vnic_name_attribute; value = vnic_name } ∷ []

-- `ConnectionParamsParser.parse` with `parse_base_data`, for parameters that are there
unfoldable pub parse_params : ParamsData → Result ConnectionParams
parse_params (connect_to_subnet cidr attributes subnet_id vnic_name) = ok (
    subnet_params (record {
      cidr = cidr;
      service_attributes = parse_subnet_service_attributes attributes;
      custom_attributes = vnic_attributes vnic_name;
      subnet_id = subnet_id;
    }))
parse_params (prepare_subnet cidr attributes is_public alias) = ok (
    prepare_subnet_params cidr (parse_subnet_service_attributes attributes)
      (convert_to_bool is_public) alias)
parse_params (prepare_cloud_infra cidr attributes) =
    ok (prepare_network_params cidr (parse_subnet_service_attributes attributes))
parse_params other_params =
    err (exception ErrorKind.value_error (text "Unsupported connection params type <type 'type'>"))

-- `if not params_data: return params`
unfoldable pub parse_or_none : Option ParamsData → Result (Option ConnectionParams)
parse_or_none none = ok none
parse_or_none (some params_data) = do params ← parse_params params_data; ok (some params)

-- `network_action.connection_params.subnet_id`, which the message to the logger reads
unfoldable pub subnet_id_of : Option ConnectionParams → Result Text
subnet_id_of (some (subnet_params params)) = ok params.subnet_id
subnet_id_of (some (prepare_subnet_params _ _ _ _)) = err (
    exception ErrorKind.attribute_error
      (text "'PrepareSubnetParamsData' object has no attribute 'subnet_id'"))
subnet_id_of (some (prepare_network_params _ _)) = err (
    exception ErrorKind.attribute_error
      (text "'PrepareNetworkParams' object has no attribute 'subnet_id'"))
subnet_id_of none =
    err
      (exception ErrorKind.attribute_error (text "'NoneType' object has no attribute 'subnet_id'"))

-- the body of the loop, for the id and the parameters of an action
unfoldable pub parse_action : Text × Option ParamsData → Result NetworkAction
parse_action (id, data_of) = do
  params ← parse_or_none data_of
  _ ← subnet_id_of params
  ok (record { id = id; connection_params = params })

-- `parsed_data if (len(parsed_data) > 0) else None`
unfoldable pub some_or_none : List NetworkAction → Option (List NetworkAction)
some_or_none [] = none
some_or_none (action ∷ actions) = some (action ∷ actions)

-- `none` is what is not a list
unfoldable pub parse_network_actions_data :
    Option (List (Text × Option ParamsData)) → Result (Option (List NetworkAction))
parse_network_actions_data none = ok none
parse_network_actions_data (some actions) = do
  parsed ← map_ok parse_action actions
  ok (some_or_none parsed)

-- `SubnetConnectionParams.is_public_subnet`; the values of these attributes are texts
unfoldable pub is_public_value : AttributeValue → Bool
is_public_value (text_value s) = eq (lower s) (text "true")
is_public_value _ = false

unfoldable pub is_public_subnet : List ActionAttribute → Bool
is_public_subnet [] = true
is_public_subnet (attribute ∷ attributes) =
    if eq attribute.name (text "Public")
    then is_public_value attribute.value
    else is_public_subnet attributes

-- `try: return int(attr.value)`, `except: return None`
unfoldable pub int_or_none : Result ℕ → Option ℕ
int_or_none (ok n) = some n
int_or_none (err e) = none

-- the setter: the loop, and what is appended where no attribute has the name
unfoldable pub assign_index : ℕ → List ActionAttribute → List ActionAttribute
assign_index n [] = record { name = vnic_name_attribute; value = int_value n } ∷ []
assign_index n (attribute ∷ attributes) =
    if eq attribute.name vnic_name_attribute
    then record attribute { value = int_value n } ∷ attributes
    else attribute ∷ assign_index n attributes

module _ (to_int : Text → Result ℕ) where
  -- `int(value)`
  unfoldable pub int_of : AttributeValue → Result ℕ
  int_of no_value = err (
      exception ErrorKind.type_error
        (text "int() argument must be a string or a number, not 'NoneType'"))
  int_of (text_value s) = to_int s
  int_of (int_value n) = ok n

  -- the property `device_index`, in the custom attributes
  unfoldable pub device_index : List ActionAttribute → Option ℕ
  device_index [] = none
  device_index (attribute ∷ attributes) =
      if eq attribute.name vnic_name_attribute
      then int_or_none (int_of attribute.value)
      else device_index attributes

  unfoldable pub set_device_index :
      AttributeValue → SubnetConnectionParams → Result SubnetConnectionParams
  set_device_index value params = do
    n ← int_of value
    ok (record params { custom_attributes = assign_index n params.custom_attributes })

  -- what NicRequests reads of a connection
  unfoldable pub connection_of : SubnetConnectionParams → ConnectSubnet
  connection_of params = record {
    device_index = device_index params.custom_attributes;
    subnet_id = params.subnet_id;
    is_public_subnet = is_public_subnet params.service_attributes;
  }
