-- ===== src/VmRules.antt =====
-- `_create_vm_network_security_group` of
-- package/cloudshell/cp/azure/domain/vm_management/operations/deploy_operation.py: the security group
-- of one VM. The tags and the region of the group are left out.
pub mod Opened
use azure_shell.Prelude.{
  ℕ, Bool, ◌||◌, Option, none, some, List, [], ◌∷◌, ◌++◌, map, if◌then◌else◌, ⊤,
}
use azure_shell.Text.{Text, text, is_empty, eq}
use azure_shell.Errors.{ErrorKind, exception}
use azure_shell.Models.{RuleData}
use azure_shell.Cloud.{Azure}
use azure_shell.Cloud.Objects.{Nsg, Vnet}
use azure_shell.Effects.{M, ◌>>=◌, ◌>>◌, pure, raise, lift, for_each}
use azure_shell.Effects.Retry.{Retrying}
use azure_shell.Ports.RulesAttribute
use azure_shell.Cancellation.{check_cancelled}
use azure_shell.Networks.{
  get_virtual_networks, get_virtual_network_by_tag, get_sandbox_virtual_network,
}
use azure_shell.Sandbox.{allow_all_rule, deny_all_rule, dash_cidr, first_prefix, create_one}
use azure_shell.SecurityGroups.{create_network_security_group, create_network_security_group_rules}
use azure_shell.SecurityGroups.Rules.{Constants, of_rule_data}

-- `management_vnet.address_space.address_prefixes[0]`
unfoldable pub vnet_cidr : Option Vnet → M Text
vnet_cidr none = raise (
    exception ErrorKind.attribute_error (text "'NoneType' object has no attribute 'address_space'"))
vnet_cidr (some vnet) = first_prefix vnet.address_prefixes

module _ (r : Retrying) (z : Azure) (k : Constants) where
  unfoldable pub get_management_vnet_cidr : Text → M Text
  get_management_vnet_cidr management_group = do
    vnets ← get_virtual_networks r z management_group
    vnet_cidr (get_virtual_network_by_tag vnets (text "network_type") (text "mgmt"))

  module _ (group nsg : Text) where
    -- `if deployment_model.inbound_ports`, with the default of `source_address`
    unfoldable pub open_inbound_ports : Text → M ⊤
    open_inbound_ports inbound_ports =
        if is_empty inbound_ports
        then pure tt
        else lift (RulesAttribute.parse_port_group_attribute inbound_ports) >>= λ rules.
            create_network_security_group_rules r z k group nsg (map of_rule_data rules) (text "*")
              (some 1000) k.internet

    -- the body of the loop over the additional management networks; the call gives no
    -- `source_address`, which is `RouteNextHopType.internet` by default
    unfoldable pub open_additional_network : Text → M ⊤
    open_additional_network mgmt_network =
        create_one r z k group nsg (allow_all_rule k (text "Allow_" ++ dash_cidr mgmt_network))
          (text "*") k.internet 3000

    unfoldable pub open_management : Text → M ⊤
    open_management management_vnet_cidr =
        create_one r z k group nsg
          (allow_all_rule k (text "Allow_Traffic_From_Management_Vnet_To_Any")) (text "*")
          management_vnet_cidr 4070

    -- `if not allow_all_sandbox_traffic or allow_all_sandbox_traffic == 'False'`
    unfoldable pub block_sandbox : Text → M ⊤
    block_sandbox allow_all_sandbox_traffic =
        if is_empty allow_all_sandbox_traffic || eq allow_all_sandbox_traffic (text "False")
        then create_one r z k group nsg (allow_all_rule k (text "Allow_Azure_Load_Balancer"))
            (text "*") (text "AzureLoadBalancer") 4080
          >> create_one r z k group nsg (deny_all_rule k (text "Deny_Sandbox_Traffic")) (text "*")
              (text "VirtualNetwork") 4090
        else pure tt

  -- The arguments are the attributes of the deployment and of the cloud provider that it reads.
  unfoldable pub create_vm_network_security_group :
      Text → Text → Text → Text → List Text → Text → M Nsg
  create_vm_network_security_group management_group group vm_name inbound_ports additional allow =
      do
        management_vnet_cidr ← get_management_vnet_cidr management_group
        get_sandbox_virtual_network r z group
        let nsg = text "NSG_" ++ vm_name
        vm_nsg ← create_network_security_group r z k group nsg
        open_inbound_ports group nsg inbound_ports
        for_each additional (open_additional_network group nsg)
        open_management group nsg management_vnet_cidr
        block_sandbox group nsg allow
        check_cancelled z
        pure vm_nsg
