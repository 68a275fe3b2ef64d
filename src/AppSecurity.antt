-- ===== src/AppSecurity.antt =====
-- package/cloudshell/cp/azure/domain/vm_management/operations/set_app_security_groups.py: the custom
-- rules of deployed apps.
pub mod Results
pub mod Requests
pub mod Cleared
use azure_shell.Prelude.{
  ℕ, suc, Bool, true, false, Option, none, some, List, [], ◌∷◌, ◌++◌, map, if◌then◌else◌, ⊤,
}
use azure_shell.Text.{Text, text, eq}
use azure_shell.Text.Decimal.{show}
use azure_shell.Errors.{Error, Result, ok, err, ErrorKind, exception}
use azure_shell.Models.{PortData}
use azure_shell.Cloud.{Azure, get_nic}
use azure_shell.Cloud.Objects.{Nic, Vm}
use azure_shell.Details.{get_name_from_resource_id}
use azure_shell.Effects.{M, ◌>>=◌, ◌>>◌, pure, raise, call, attempt, for_each, collect}
use azure_shell.Effects.Retry.{Retrying}
use azure_shell.Names.{format_subnet_name}
use azure_shell.SecurityGroups.{
  first_configuration, delete_custom_security_rules_from_nsg, create_network_security_group_rules,
}
use azure_shell.SecurityGroups.Rules.{Constants, of_port_data}
use azure_shell.VirtualMachines.{get_vm_of}

-- `SecurityGroupConfiguration`, and `AppSecurityGroupModel` by the name of its app; a list may be
-- `None`
pub record Configuration : Type 0 where
  pub subnet_id : Text
  pub rules : Option (List PortData)

pub record AppSecurityGroup : Type 0 where
  pub app_name : Text
  pub configurations : Option (List Configuration)

-- `SetAppSecurityGroupActionResult`
pub record AppResult : Type 0 where
  pub app_name : Text
  pub success : Bool
  pub error : Text

-- what the libraries and the interpreter decide: whether a text is a CIDR for `netaddr`, and in which
-- order the items of a dictionary are visited
pub record Libraries : Type 0 where
  pub is_cidr_format : Text → Bool
  pub items : List (Nic × Text) → List (Nic × Text)

-- `_determine_name_of_subnet_from_security_group_configuration_of_request`
unfoldable pub name_of_subnet : Libraries → Text → Text → Text
name_of_subnet libraries group subnet_id =
    get_name_from_resource_id
      (if libraries.is_cidr_format subnet_id then format_subnet_name group subnet_id else subnet_id)

-- the loop of `_find_nic_by_subnet`
unfoldable pub find_nic : List (Nic × Text) → Text → Option Nic
find_nic [] subnet_name = none
find_nic ((nic, name) ∷ items) subnet_name =
    if eq name subnet_name then some nic else find_nic items subnet_name

-- `"custom_rule_{2}_for_{0}_to_{1}".format(vm_name, destination_ip, i)`
unfoldable pub custom_rule_name : Text → Text → ℕ → Text
custom_rule_name vm_name destination_ip i =
    text "custom_rule_"
    ++ (show i ++ (text "_for_" ++ (vm_name ++ (text "_to_" ++ destination_ip))))

-- `for i, rule in enumerate(…): rule.name = …`, from number `i` on
unfoldable pub named_from : Text → Text → ℕ → List PortData → List PortData
named_from vm_name destination_ip i [] = []
named_from vm_name destination_ip i (rule ∷ rules) =
    record rule { name = some (custom_rule_name vm_name destination_ip i) }
    ∷ named_from vm_name destination_ip (suc i) rules

-- `nic.ip_configurations[0].private_ip_address`, where the NIC may be `None`
unfoldable pub address_of : Option Nic → M Text
address_of none = raise (
    exception ErrorKind.attribute_error
      (text "'NoneType' object has no attribute 'ip_configurations'"))
address_of (some nic) =
    first_configuration nic >>= λ configuration. pure configuration.private_ip_address

-- what a `for` or `enumerate` does with a list that may be `None`
unfoldable pub iterated : {A : Type 0} → Option (List A) → M (List A)
iterated none = raise (exception ErrorKind.type_error (text "'NoneType' object is not iterable"))
iterated (some items) = pure items

-- `_create_security_group_action_result`
unfoldable pub result_of : Text → Result ⊤ → AppResult
result_of app_name (ok _) = record { app_name = app_name; success = true; error = text "" }
result_of app_name (err e) = record {
  app_name = app_name;
  success = false;
  error =
      text "Setting custom app security rules failed for '"
      ++ app_name
      ++ text "' with error '"
      ++ e.message
      ++ text "'.";
}

module _ (r : Retrying) (z : Azure) (k : Constants) (libraries : Libraries) (group : Text) where
  -- one entry of `_create_nic_to_subnet_name_map`
  unfoldable pub nic_and_subnet : Text → M (Nic × Text)
  nic_and_subnet nic_name = do
    nic ← call (get_nic group nic_name) z.nic
    configuration ← first_configuration nic
    pure (nic, get_name_from_resource_id configuration.subnet)

  unfoldable pub create_nic_to_subnet_name_map : Vm → M (List (Nic × Text))
  create_nic_to_subnet_name_map vm =
      collect vm.network_interfaces
        λ reference. nic_and_subnet (get_name_from_resource_id reference.id)

  -- the body of the loop over the configurations
  unfoldable pub set_configuration : Text → List (Nic × Text) → Configuration → M ⊤
  set_configuration vm_name nics configuration = do
    destination_ip ←
        address_of
          (find_nic (libraries.items nics) (name_of_subnet libraries group configuration.subnet_id))
    rules ← iterated configuration.rules
    create_network_security_group_rules r z k group (text "NSG_" ++ vm_name)
        (map of_port_data (named_from vm_name destination_ip 0 rules)) destination_ip none
        k.internet

  -- the `try` block of one app
  unfoldable pub set_app : AppSecurityGroup → M ⊤
  set_app app = do
    delete_custom_security_rules_from_nsg r z k group (text "NSG_" ++ app.app_name)
    vm ← get_vm_of r z group app.app_name
    nics ← create_nic_to_subnet_name_map vm
    configurations ← iterated app.configurations
    for_each configurations (set_configuration app.app_name nics)

  unfoldable pub set_apps_security_groups : List AppSecurityGroup → M (List AppResult)
  set_apps_security_groups apps =
      collect apps λ app. attempt (set_app app) >>= λ outcome. pure (result_of app.app_name outcome)
