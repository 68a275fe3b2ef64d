-- ===== src/Tests/Shells.antt =====
-- The commands of the shell.
use azure_shell.Prelude.{ℕ, ◌≡◌, refl, none, some, List, [], ◌∷◌, inl, inr}
use azure_shell.Text.{text, eq}
use azure_shell.Text.Edit.{lower, lower_char, replace, split, strip}
use azure_shell.Errors.{ok, err}
use azure_shell.Cloud.{Azure, get_vm}
use azure_shell.Cloud.Objects.{SecurityRule}
use azure_shell.AppSecurity.{custom_rule_name}
use azure_shell.Commands.{delete_azure_vm, create_route_tables}
use azure_shell.Commands.Endpoints.{Endpoint}
use azure_shell.Commands.Removed.{delete_azure_vm_leaves}
use azure_shell.Commands.Tables.{OfTables, create_route_tables-Emits}
use azure_shell.DataHolders.{string, array, nil, item}
use azure_shell.Routes.{RouteTableRequest}
use azure_shell.Routes.Requests.{convert_to_route_table_model}
use azure_shell.Routes.Requests.Converted.{request_json, convert_to_route_table_model-json}
use azure_shell.Effects.Emits.{Emits}
use azure_shell.Deletion.{is_not_found}
use azure_shell.Deployment.{CloudProviderModel}
use azure_shell.Effects.Retry.{is_cloud_error}
use azure_shell.Models.{RuleData, PortData}
use azure_shell.ModelParser.{
  Attributes, convert_to_cloud_provider_resource_model, attribute_of, convert_list_attribute,
}
use azure_shell.SecurityGroups.Rules.{
  prepare_security_group_rule, rule_name, text_or, port_range, port_data_range,
}
use azure_shell.SecurityReport.{display_strings, rule_display_str}
use azure_shell.SecurityReport.Shown.{IsOfPort, IsCustom, display_strings_lem}
use azure_shell.VmDetails.{DetailsRequest, get_vm_details, ImageIds}
use azure_shell.VmDetails.Prefix.{IsAnswered, get_vm_details_total}
use azure_shell.Tests.Data.{retrying, constants, group, vm_name, cloud, absent, subnet}

abbrev ids : ImageIds
ids = record { image_name = λ id. none; group_name = λ id. some group }

abbrev details_requests : List DetailsRequest
details_requests =
    record { app_name = vm_name; attribute_names = text "Image SKU" ∷ [] }
    ∷ record { app_name = vm_name; attribute_names = [] }
    ∷ []

get_vm_details_example :
    (n : ℕ) × IsAnswered cloud details_requests n
      (get_vm_details retrying cloud ids group details_requests [])
get_vm_details_example = get_vm_details_total retrying cloud ids group details_requests []

-- a cloud without the VM
abbrev empty_cloud : Azure
empty_cloud = record cloud { vm = λ h. err absent }

abbrev resource : Attributes
resource =
    (text "Azure Application ID", text "a")
    ∷ (text "Azure Subscription ID", text "s")
    ∷ (text "Azure Tenant ID", text "t")
    ∷ (text "VM Size", text "")
    ∷ (text "Region", text "West US")
    ∷ (text "Management Group Name", group)
    ∷ (text "Private IP Allocation Method", text "Cloudshell Allocation")
    ∷ (text "Networks In Use", text "")
    ∷ (text "Additional Mgmt Networks", text "")
    ∷ (text "Azure Application Key", text "k")
    ∷ []

abbrev model : CloudProviderModel
model = record {
  management_group_name = group;
  vm_size = text "";
  private_ip_allocation_method = text "Cloudshell Allocation";
  additional_mgmt_networks = [];
  azure_application_id = text "a";
  azure_application_key = text "k";
  azure_subscription_id = text "s";
  azure_tenant = text "t";
  region = text "westus";
  networks_in_use = [];
}

resource_is_read : convert_to_cloud_provider_resource_model (λ key. ok key) resource ≡ ok model
unfolding convert_to_cloud_provider_resource_model attribute_of convert_list_attribute eq text lower
    lower_char replace split strip
resource_is_read = refl

abbrev endpoint : Endpoint
endpoint = record {
  fullname = vm_name;
  address = text "10.0.0.4";
  attributes = [];
  app_name = vm_name;
  custom_params = [];
  service_attributes = [];
}

delete_azure_vm_leaves_example :
    delete_azure_vm retrying empty_cloud
      (λ key. ok key)
      resource
      (λ url. (url, url))
      group
      (some (endpoint ∷ []))
      []
    ≡ (ok tt, get_vm group vm_name ∷ [])
delete_azure_vm_leaves_example =
    delete_azure_vm_leaves retrying empty_cloud (λ key. ok key) resource (λ url. (url, url)) group
      endpoint [] model absent [] resource_is_read refl
      (unfold is_not_found is_cloud_error eq text in refl)

abbrev ssh_port : RuleData
ssh_port = record {
  access = text "Allow";
  protocol = text "tcp";
  port = some (text "22");
  from_port = none;
  to_port = none;
  name = none;
}

abbrev custom_port : PortData
custom_port = record {
  from_port = text "80";
  to_port = text "80";
  protocol = text "tcp";
  destination = none;
  source = text "*";
  name = some (custom_rule_name vm_name (text "10.0.0.4") 0);
}

abbrev rule_of_port : SecurityRule
rule_of_port = record {
  access = text "Allow";
  direction = text "Inbound";
  source_address_prefix = text "*";
  source_port_range = constants.asterisk;
  name = rule_name none 1000;
  destination_address_prefix = text "10.0.0.4";
  destination_port_range = text "22";
  priority = 1000;
  protocol = text "tcp";
}

abbrev custom_rule : SecurityRule
custom_rule = record {
  access = text "Allow";
  direction = text "Inbound";
  source_address_prefix = text "*";
  source_port_range = constants.asterisk;
  name = rule_name (some (custom_rule_name vm_name (text "10.0.0.4") 0)) 1005;
  destination_address_prefix = text "10.0.0.4";
  destination_port_range = text "80";
  priority = 1005;
  protocol = text "tcp";
}

rule_of_port-IsOfPort : IsOfPort constants rule_of_port
unfolding prepare_security_group_rule port_range text_or text
rule_of_port-IsOfPort = (ssh_port, text "10.0.0.4", 1000, text "*", refl, refl)

custom_rule-IsCustom : IsCustom constants custom_rule
unfolding prepare_security_group_rule port_data_range eq text
custom_rule-IsCustom = (custom_port, text "10.0.0.4", 1005, text "*", vm_name, 0, refl, refl)

display_strings_example :
    display_strings (custom_rule ∷ rule_of_port ∷ []) ≡ rule_display_str rule_of_port ∷ []
display_strings_example =
    display_strings_lem constants (custom_rule ∷ rule_of_port ∷ [])
      (inr custom_rule-IsCustom, (inl rule_of_port-IsOfPort, tt))

abbrev tables : List RouteTableRequest
tables =
    record {
      name = text "table";
      routes = (text "route", text "10.0.1.15", text "VirtualAppliance", text "10.0.1.0/28") ∷ [];
      subnets = subnet.name ∷ [];
    }
    ∷ []

create_route_tables_example :
    Emits
      (OfTables cloud group group tables)
      (create_route_tables retrying cloud (λ key. ok key) resource group (text "{}") tables)
create_route_tables_example =
    create_route_tables-Emits retrying cloud (λ key. ok key) resource model group (text "{}") tables
      resource_is_read

convert_to_route_table_model_example :
    convert_to_route_table_model (eq (text "0")) (λ s. ok (request_json tables)) (text "{}")
    ≡ ok (
        record {
          name = string (text "table");
          subnets = array (item (string subnet.name) nil);
          routes =
              record {
                name = string (text "route");
                route_address_prefix = string (text "10.0.1.0/28");
                next_hop_type = string (text "VirtualAppliance");
                next_hope_address = string (text "10.0.1.15");
              }
              ∷ [];
        }
        ∷ [])
convert_to_route_table_model_example =
    convert_to_route_table_model-json (eq (text "0")) (λ s. ok (request_json tables)) (text "{}")
      tables refl
