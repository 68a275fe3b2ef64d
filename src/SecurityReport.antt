-- ===== src/SecurityReport.antt =====
-- `get_application_ports` of package/cloudshell/cp/azure/azure_shell.py: the security rules of a VM as a
-- user reads them.
pub mod Shown
use azure_shell.Prelude.{
  Bool, true, false, ◌||◌, Option, none, some, List, [], ◌∷◌, ◌++◌, map, keep, last_or,
  if◌then◌else◌,
}
use azure_shell.Text.{Text, text, contains, starts_with}
use azure_shell.Text.Edit.{split, strip}
use azure_shell.Errors.{ErrorKind, exception}
use azure_shell.Cloud.{Azure, get_nic, get_nsg}
use azure_shell.Cloud.Objects.{SecurityRule, Nsg, Nic, Vm, NicReference}
use azure_shell.Effects.{M, ◌>>=◌, pure, raise, call}
use azure_shell.Effects.Retry.{Retrying}
use azure_shell.ModelParser.{Attributes, get_attribute_value_by_name_ignoring_namespace}
use azure_shell.OpenPorts.{join_lines}
use azure_shell.SecurityGroups.Rules.{show_option}
use azure_shell.VirtualMachines.{get_vm_of}

-- `any(x for x in MORE_THAN_ONE_INDICATORS if x in rule.destination_port_range)`
unfoldable pub is_more_than_one : Text → Bool
is_more_than_one ports =
    contains (b',' ∷ []) ports || contains (b'-' ∷ []) ports || contains (b'*' ∷ []) ports

unfoldable pub rule_display_str : SecurityRule → Text
rule_display_str rule =
    text "Port"
    ++ ((if is_more_than_one rule.destination_port_range then text "s" else [])
        ++ (text ": "
            ++ (rule.destination_port_range
                ++ (text ", Protocol: "
                    ++ (rule.protocol
                        ++ (text ", Destination: " ++ rule.destination_address_prefix))))))

-- the rules of `inbound_rules_gen`
unfoldable pub is_shown : SecurityRule → Bool
is_shown rule = starts_with rule.name (text "rule_")

-- what `_update_security_rules_display_strings` appends
unfoldable pub display_strings : List SecurityRule → List Text
display_strings rules = map rule_display_str (keep is_shown rules)

-- `get_allow_all_storage_traffic_from_connected_resource_details`, for the attributes of the deployment
-- service, where there is an endpoint
unfoldable pub get_allow_all_storage_traffic : Option Attributes → Option Text
get_allow_all_storage_traffic none = some (text "")
get_allow_all_storage_traffic (some attributes) =
    get_attribute_value_by_name_ignoring_namespace attributes (text "Allow all Sandbox Traffic")

-- `vm.network_profile.network_interfaces[0].id.split('/')[-1]`
unfoldable pub first_nic_name : List NicReference → M Text
first_nic_name [] = raise (exception ErrorKind.index_error (text "list index out of range"))
first_nic_name (reference ∷ references) = pure (last_or [] (split b'/' reference.id))

-- `first_nic.network_security_group.id.split('/')[-1]`
unfoldable pub nsg_name_of : Option Text → M Text
nsg_name_of none =
    raise (exception ErrorKind.attribute_error (text "'NoneType' object has no attribute 'id'"))
nsg_name_of (some id) = pure (last_or [] (split b'/' id))

unfoldable pub results_str_list : Text → Option Text → List SecurityRule → List Text
results_str_list full_name allow_sandbox_traffic rules =
    (text "App Name: " ++ full_name)
    ∷ (text "Allow Sandbox Traffic: " ++ show_option allow_sandbox_traffic)
    ∷ display_strings rules

module _ (r : Retrying) (z : Azure) (group : Text) where
  -- `_get_vm_network_security_group_name`
  unfoldable pub get_vm_network_security_group_name : Vm → M Text
  get_vm_network_security_group_name vm = do
    name ← first_nic_name vm.network_interfaces
    first_nic ← call (get_nic group name) z.nic
    nsg_name_of first_nic.network_security_group

  -- `_get_vm_nsg`
  unfoldable pub get_vm_nsg : Text → M Nsg
  get_vm_nsg vm_name = do
    vm ← get_vm_of r z group vm_name
    name ← get_vm_network_security_group_name vm
    call (get_nsg group name) z.nsg

  -- from the full name of the app and the attributes of its deployment service
  unfoldable pub get_application_ports : Text → Attributes → M Text
  get_application_ports full_name attributes = do
    nsg ← get_vm_nsg full_name
    pure (
        strip (
          join_lines (
            results_str_list full_name (get_allow_all_storage_traffic (some attributes))
              nsg.security_rules)))
