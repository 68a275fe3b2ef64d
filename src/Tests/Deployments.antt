-- ===== src/Tests/Deployments.antt =====
-- Deployments and sandboxes, and what is told of a VM.
use azure_shell.Prelude.{◌≡◌, refl, ap, true, false, none, some, List, [], ◌∷◌, ◌++◌, map}
use azure_shell.Text.{text, eq}
use azure_shell.Errors.{ok}
use azure_shell.Models.{RuleData}
use azure_shell.Cloud.{History}
use azure_shell.Cloud.Objects.{linux}
use azure_shell.Effects.{◌>>=◌, pure, call}
use azure_shell.Effects.Retry.{retry5}
use azure_shell.SecurityGroups.{first_configuration, first_of}
use azure_shell.Effects.Emits.{Emits}
use azure_shell.AppSecurity.{AppSecurityGroup, AppResult, set_apps_security_groups, named_from}
use azure_shell.AppSecurity
use azure_shell.AppSecurity.Results.{names_of, set_apps_security_groups_total}
use azure_shell.Deployment.{DeploymentModel, CloudProviderModel, DeployData}
use azure_shell.Deployment.Steps.{Surroundings}
use azure_shell.Images.{from_custom_image, custom_image}
use azure_shell.NicRequests.{NicRequest}
use azure_shell.Preparation.{create_sandbox_subnet}
use azure_shell.Preparation
use azure_shell.Preparation.Subnets.{OfSubnet, create_sandbox_subnet-Emits}
use azure_shell.Refresh.{refresh_ip, addresses_on_azure, primary_or_first, public_ip_on_azure}
use azure_shell.Refresh.Refined.{Server, with_address, with_attribute, after, refresh_ip_refines}
use azure_shell.VirtualMachines.{get_active_vm, get_vm_of, require_active}
use azure_shell.Tests.Data.{subnet, vnet, retrying, constants, group, vm_name, cloud}

abbrev app_libraries : AppSecurity.Libraries
app_libraries = record { is_cidr_format = λ t. true; items = λ nics. nics }

abbrev apps : List AppSecurityGroup
apps = record { app_name = vm_name; configurations = some [] } ∷ []

set_apps_security_groups_example :
    names_of (set_apps_security_groups retrying cloud constants app_libraries group apps []).0
    ≡ some (map (λ app. app.app_name) apps)
set_apps_security_groups_example =
    set_apps_security_groups_total retrying cloud constants app_libraries group apps []

abbrev preparation_libraries : Preparation.Libraries
preparation_libraries = record { error_text = λ e. e.message; resource_group_of = λ id. none }

create_sandbox_subnet_example : Emits (OfSubnet group vnet (text "10.0.0.0/24") vm_name) (
    create_sandbox_subnet retrying cloud preparation_libraries group vnet
      (text "nsg")
      (text "10.0.0.0/24")
      vm_name)
create_sandbox_subnet_example =
    create_sandbox_subnet-Emits retrying cloud preparation_libraries group vnet (text "10.0.0.0/24")
      vm_name (text "nsg")

abbrev pub model : DeploymentModel
model = record {
  app_name = vm_name;
  vm_size = group;
  add_public_ip = true;
  public_ip_type = text "Static";
  inbound_ports = [];
  allow_all_sandbox_traffic = group;
  enable_ip_forwarding = false;
  extension_script_file = [];
  extension_script_configurations = [];
  extension_script_timeout = 30;
  username = [];
  password = group;
  disk_type = text "HDD";
  disk_size = [];
  image = from_custom_image vm_name group;
  network_configurations = [];
}

abbrev pub provider : CloudProviderModel
provider = record {
  management_group_name = group;
  vm_size = group;
  private_ip_allocation_method = text "Cloudshell Allocation";
  additional_mgmt_networks = [];
  azure_application_id = text "app";
  azure_application_key = text "key";
  azure_subscription_id = text "subscription";
  azure_tenant = text "tenant";
  region = text "westus";
  networks_in_use = [];
}

abbrev pub request : NicRequest
request = record { interface_name = vm_name; subnet = subnet; is_public = true }

abbrev pub job : DeployData
job = record {
  group_name = group;
  image_model = custom_image (text "image") linux;
  vm_name = vm_name;
  computer_name = vm_name;
  vm_size = group;
  enable_ip_forwarding = false;
  nic_requests = some request ∷ [];
  storage_account_name = text "store";
}

abbrev pub around : Surroundings
around = record {
  constants = constants;
  allocation_types = [];
  generated_password = group;
  image_ids = record { image_name = λ id. none; group_name = λ id. some group };
  append_message = λ e t. record e { formatted = e.formatted ++ t };
}

abbrev pub rule : RuleData
rule = record {
  access = text "Allow";
  protocol = text "tcp";
  port = some (text "80");
  from_port = none;
  to_port = none;
  name = none;
}

abbrev refreshed : History
refreshed = (addresses_on_azure retrying cloud group vm_name []).1

read :
    addresses_on_azure retrying cloud group vm_name []
    ≡ (ok (text "10.0.0.4", some (text "20.0.0.1")), refreshed)
unfolding addresses_on_azure get_active_vm get_vm_of require_active eq text retry5 call ◌>>=◌ pure
    primary_or_first public_ip_on_azure first_configuration first_of
read = refl

-- a server on which the resource has the address of its VM's name and no public address
abbrev server : Server
server = record { address = λ name. vm_name; attribute = λ name k. none }

unread : after refreshed server ≡ server
unfolding addresses_on_azure get_active_vm get_vm_of require_active eq text retry5 call ◌>>=◌ pure
    primary_or_first public_ip_on_azure first_configuration first_of
unread = refl

refresh_ip_example :
    ((refresh_ip retrying cloud group vm_name group (text "Public IP") vm_name none []).0 ≡ ok tt)
    × (after
          (refresh_ip retrying cloud group vm_name group (text "Public IP") vm_name none []).1
          server
        ≡ with_address group (text "10.0.0.4") (
            with_attribute group
              (text "Public IP")
              (some (text "20.0.0.1"))
              (after refreshed server)))
refresh_ip_example =
    refresh_ip_refines retrying cloud group vm_name group (text "Public IP") vm_name none
      (text "10.0.0.4") (some (text "20.0.0.1")) [] refreshed server (λ c h. refl) read
      (ap (λ x. x.address group) unread) (ap (λ x. x.attribute group (text "Public IP")) unread)
