-- ===== src/ModelParser.antt =====
-- `AzureModelsParser` of package/cloudshell/cp/azure/common/parsers/azure_model_parser.py: attributes
-- of requests and resources. A dictionary is the list of its items in the order in which they are
-- visited; decrypting and `int` are arguments. Requests for route tables are read in Routes/Requests.
pub mod Booleans
use azure_shell.Prelude.{
  ℕ, Bool, true, false, ◌||◌, Option, none, some, List, [], ◌∷◌, ◌++◌, map, first, last_or,
  if◌then◌else◌, ⊤,
}
use azure_shell.Text.{Text, text, eq, is_empty}
use azure_shell.Text.Edit.{lower, split, strip, replace}
use azure_shell.Errors.{Result, ok, err, ErrorKind, exception, ◌>>=◌}
use azure_shell.Deployment.{DeploymentModel, CloudProviderModel}
use azure_shell.Images.{DeploymentImage, from_custom_image, from_marketplace}
use azure_shell.NicRequests.{ConnectSubnet}
use azure_shell.Scripts.{ends_with}

abbrev pub Attributes : Type 0
Attributes = List (Text × Text)

unfoldable pub convert_to_boolean : Text → Bool
convert_to_boolean value = eq (lower value) (text "1") || eq (lower value) (text "true")

-- `_convert_list_attribute`
unfoldable pub convert_list_attribute : Text → List Text
convert_list_attribute attribute =
    if is_empty attribute then [] else map strip (split b',' attribute)

-- `attributes[name]`
unfoldable pub attribute_of : Attributes → Text → Result Text
attribute_of [] name = err (exception ErrorKind.key_error name)
attribute_of ((key, value) ∷ attributes) name =
    if eq key name then ok value else attribute_of attributes name

-- `attributes.get(name, default)`
unfoldable pub attribute_or : Attributes → Text → Text → Text
attribute_or [] name default = default
attribute_or ((key, value) ∷ attributes) name default =
    if eq key name then value else attribute_or attributes name default

-- `_gen2_attributes_lambda`
unfoldable pub is_gen2_key : Text → Text → Bool
is_gen2_key attribute_key x = eq x attribute_key || ends_with x (b'.' ∷ attribute_key)

-- the value under the first key that is the given one, perhaps in a namespace; `None` is read as empty
unfoldable pub gen2_attribute : Attributes → Text → Text
gen2_attribute [] attribute_key = text ""
gen2_attribute ((key, value) ∷ attributes) attribute_key =
    if is_gen2_key attribute_key key then value else gen2_attribute attributes attribute_key

unfoldable pub get_attribute_value_by_name_ignoring_namespace : Attributes → Text → Option Text
get_attribute_value_by_name_ignoring_namespace [] name = none
get_attribute_value_by_name_ignoring_namespace ((key, value) ∷ attributes) name =
    if eq name (last_or [] (split b'.' key))
    then some value
    else get_attribute_value_by_name_ignoring_namespace attributes name

unfoldable pub get_matching_attribute_tuple_ignoring_namespace :
    Attributes → Text → Text × Option Text
get_matching_attribute_tuple_ignoring_namespace [] name = (name, none)
get_matching_attribute_tuple_ignoring_namespace ((key, value) ∷ attributes) name =
    if eq name (last_or [] (split b'.' key))
    then (key, some value)
    else get_matching_attribute_tuple_ignoring_namespace attributes name

unfoldable pub validate_custom_image_model : Text → Text → Result ⊤
validate_custom_image_model image_name image_resource_group =
    if is_empty image_name
    then err (
        exception ErrorKind.value_error
          (text "Azure Image attribute is mandatory and cannot be empty"))
    else if is_empty image_resource_group
    then err (
        exception ErrorKind.value_error
          (text "Azure Resource Group attribute is mandatory and cannot be empty"))
    else ok tt

module _ (decrypt : Text → Result Text) where
  -- `if password: …`
  unfoldable pub decrypted : Text → Result Text
  decrypted password = if is_empty password then ok password else decrypt password

  -- the key is decrypted last
  unfoldable pub convert_to_cloud_provider_resource_model : Attributes → Result CloudProviderModel
  convert_to_cloud_provider_resource_model attributes = do
    application_id ← attribute_of attributes (text "Azure Application ID")
    subscription_id ← attribute_of attributes (text "Azure Subscription ID")
    tenant ← attribute_of attributes (text "Azure Tenant ID")
    vm_size ← attribute_of attributes (text "VM Size")
    region ← attribute_of attributes (text "Region")
    management_group_name ← attribute_of attributes (text "Management Group Name")
    method ← attribute_of attributes (text "Private IP Allocation Method")
    networks_in_use ← attribute_of attributes (text "Networks In Use")
    additional ← attribute_of attributes (text "Additional Mgmt Networks")
    encrypted_key ← attribute_of attributes (text "Azure Application Key")
    application_key ← decrypt encrypted_key
    ok (record {
      management_group_name = management_group_name;
      vm_size = vm_size;
      private_ip_allocation_method = method;
      additional_mgmt_networks = convert_list_attribute additional;
      azure_application_id = application_id;
      azure_application_key = application_key;
      azure_subscription_id = subscription_id;
      azure_tenant = tenant;
      region = lower (replace b' ' [] region);
      networks_in_use = convert_list_attribute networks_in_use;
    })

  module _ (to_int : Text → Result ℕ) where
    -- `_set_base_deploy_azure_vm_model_params`: the attributes of the deployment and of the logical
    -- resource, the name of the app, and what comes of parsing the network actions, which is done last
    unfoldable pub set_base_params :
        DeploymentImage
        → Text
        → Attributes
        → Attributes
        → Result (List ConnectSubnet)
        → Result DeploymentModel
    set_base_params image app_name attributes logical_resource connections = do
      add_public_ip ← attribute_of attributes (text "Add Public IP")
      _ ← attribute_of attributes (text "Autoload")
      inbound_ports ← attribute_of attributes (text "Inbound Ports")
      vm_size ← attribute_of attributes (text "VM Size")
      disk_size ← attribute_of attributes (text "Disk Size")
      public_ip_type ← attribute_of attributes (text "Public IP Type")
      script_file ← attribute_of attributes (text "Extension Script file")
      script_configurations ← attribute_of attributes (text "Extension Script Configurations")
      script_timeout ← attribute_of attributes (text "Extension Script Timeout")
      timeout ← to_int script_timeout
      disk_type ← attribute_of attributes (text "Disk Type")
      allow_all ← attribute_of attributes (text "Allow all Sandbox Traffic")
      password ← decrypted (gen2_attribute logical_resource (text "Password"))
      network_configurations ← connections
      ok (record {
        app_name = app_name;
        vm_size = vm_size;
        add_public_ip = convert_to_boolean add_public_ip;
        public_ip_type = public_ip_type;
        inbound_ports = inbound_ports;
        allow_all_sandbox_traffic = allow_all;
        enable_ip_forwarding =
            convert_to_boolean
              (attribute_or attributes (text "Enable IP Forwarding") (text "False"));
        extension_script_file = script_file;
        extension_script_configurations = script_configurations;
        extension_script_timeout = timeout;
        username = gen2_attribute logical_resource (text "User");
        password = password;
        disk_type = disk_type;
        disk_size = disk_size;
        image = image;
        network_configurations = network_configurations;
      })

    unfoldable pub convert_to_deploy_azure_vm_resource_model :
        Text → Attributes → Attributes → Result (List ConnectSubnet) → Result DeploymentModel
    convert_to_deploy_azure_vm_resource_model app_name attributes logical_resource connections = do
      offer ← attribute_of attributes (text "Image Offer")
      publisher ← attribute_of attributes (text "Image Publisher")
      sku ← attribute_of attributes (text "Image SKU")
      version ← attribute_of attributes (text "Image Version")
      set_base_params (from_marketplace publisher offer sku version) app_name attributes
          logical_resource connections

    unfoldable pub convert_to_deploy_azure_vm_from_custom_image_resource_model :
        Text → Attributes → Attributes → Result (List ConnectSubnet) → Result DeploymentModel
    convert_to_deploy_azure_vm_from_custom_image_resource_model app_name attributes logical_resource
          connections =
        do
          image_name ← attribute_of attributes (text "Azure Image")
          image_resource_group ← attribute_of attributes (text "Azure Resource Group")
          model ←
              set_base_params (from_custom_image image_name image_resource_group) app_name
                attributes logical_resource connections
          _ ← validate_custom_image_model image_name image_resource_group
          ok model
