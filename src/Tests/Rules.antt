-- ===== src/Tests/Rules.antt =====
-- Rules of security groups.
use azure_shell.Prelude.{
  ℕ, ◌≤◌, true, false, ◌++◌, ◌≡◌, ◌≢◌, refl, none, List, [], ◌∷◌, map, All, Pairwise,
}
use azure_shell.Text.{Text, text}
use azure_shell.Errors.{ok}
use azure_shell.Cloud.{list_security_rules, put_security_rule}
use azure_shell.Cloud.Objects.{SecurityRule}
use azure_shell.Effects.Emits.{Emits}
use azure_shell.Priorities.Fresh.{AscendsFrom}
use azure_shell.SecurityGroups.{create_network_security_group_rules}
use azure_shell.SecurityGroups.Rules.{InboundRule, of_rule_data}
use azure_shell.SecurityGroups.Created.{IsRuleOf, puts, create_network_security_group_rules_lem}
use azure_shell.Ports.RulesAttribute.{rule_port, rule_range}
use azure_shell.VmRules.{open_additional_network}
use azure_shell.VmRules.Opened.{open_additional_network_opens_internet}
use azure_shell.Sandbox.{allow_all_rule, dash_cidr, PrepareSubnet, create_subnet_nsg_rules}
use azure_shell.Sandbox.Rules.{rule_of, MayPut, PutsInbound, create_subnet_nsg_rules-Emits}
use azure_shell.Tests.Data.{retrying, constants, group, vm_name, nsg, cloud}

abbrev inbound : List InboundRule
inbound =
    of_rule_data (rule_port (text "22") (text "tcp"))
    ∷ of_rule_data (rule_range (text "80") (text "90") (text "udp"))
    ∷ []

abbrev address : Text
address = text "10.0.0.4"

create_network_security_group_rules_example :
    (rules : List SecurityRule) × (create_network_security_group_rules retrying cloud constants
        group vm_name inbound address none
        (text "*")
        []
      ≡ (ok tt, puts group vm_name rules (list_security_rules group vm_name ∷ [])))
    × Pairwise (IsRuleOf constants address (text "*")) inbound rules
    × AscendsFrom 1000 (map (λ rule. rule.priority) rules)
    × All (λ p. All (λ v. p ≢ v) (map (λ rule. rule.priority) rules)) (1000 ∷ 1010 ∷ [])
create_network_security_group_rules_example =
    create_network_security_group_rules_lem retrying cloud constants group vm_name address
      (text "*") (record { accepted = λ rule h. refl }) inbound none nsg.security_rules []
      (tt, (tt, tt)) refl

abbrev subnets : List PrepareSubnet
subnets =
    record { cidr = text "10.0.1.0/28"; is_public = true }
    ∷ record { cidr = text "10.0.1.16/28"; is_public = false }
    ∷ []

create_subnet_nsg_rules-Emits_example :
    Emits
      (PutsInbound
        (MayPut constants
          (text "10.1.0.0/16")
          (text "10.0.0.0/16")
          (text "10.0.1.0/24")
          (text "192.168.0.0/16" ∷ [])
          subnets)
        group
        vm_name)
      (create_subnet_nsg_rules retrying cloud constants group vm_name
        (text "10.1.0.0/16" ∷ [])
        (text "10.0.0.0/16" ∷ [])
        (text "10.0.1.0/24")
        (text "192.168.0.0/16" ∷ [])
        subnets)
create_subnet_nsg_rules-Emits_example =
    create_subnet_nsg_rules-Emits retrying cloud constants group vm_name (text "10.0.1.0/24")
      (text "192.168.0.0/16" ∷ []) subnets (text "10.1.0.0/16") (text "10.0.0.0/16") [] []

abbrev cidr : Text
cidr = text "192.168.0.0/16"

open_additional_network_example :
    (p : ℕ) × (3000 ≤ p)
    × (open_additional_network retrying cloud constants group vm_name cidr [] ≡ (
      ok tt,
      put_security_rule group vm_name (
            rule_of constants
              (allow_all_rule constants (text "Allow_" ++ dash_cidr cidr))
              (text "*")
              (text "Internet")
              p)
          ∷ list_security_rules group vm_name
          ∷ [],
    ))
open_additional_network_example =
    open_additional_network_opens_internet retrying cloud constants group vm_name cidr
      nsg.security_rules [] (record { accepted = λ rule h. refl }) refl
